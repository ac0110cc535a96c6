-- ===== src/Util/Clusters.antt =====
-- Requests reach only the clusters of the configured list.
use pulsar_beam.Prelude.{
  ◌⊎◌, String, true, false, ◌≡◌, ◌≢◌, ◌↔◌, inl, inr, refl, List, [], ◌∷◌, Any, here, there, ok, err,
  arith, eq_iff, ◌==◌, Bool-cases, if◌then◌else◌,
}
use pulsar_beam.Strings.{◌<>◌, trim_space}
use pulsar_beam.Strings.Splitting.{split-ne-nil}
use pulsar_beam.Util.{
  Configuration, Values, Receiver, receiver, first, header_get, str_contains, is_restricted,
  assign_string, allowed_pulsar_urls, receiver_token, receiver_header,
}

str_contains-Any :
    (strs : List String) (s : String)
    → str_contains strs s ≡ true
    → Any (λ v. trim_space v ≡ trim_space s) strs
unfolding str_contains
str_contains-Any [] s e = cc
str_contains-Any (v ∷ strs) s e = elim (Bool-cases (trim_space v == trim_space s)) [
  | inl h ↦ here ((eq_iff _ _).0 h)
  | inr h ↦ there (str_contains-Any strs s (ground arith))
]

Any-str_contains :
    (strs : List String) (s : String)
    → Any (λ v. trim_space v ≡ trim_space s) strs
    → str_contains strs s ≡ true
unfolding str_contains
Any-str_contains (v ∷ strs) s (here p) = rw ((eq_iff _ _).1 p)
Any-str_contains (v ∷ strs) s (there a) = ground (arith, Any-str_contains strs s a)
Any-str_contains [] s a = elim a [ ]

pub str_contains-eq-true_iff :
    (strs : List String) (s : String)
    → (str_contains strs s ≡ true) ↔ Any (λ v. trim_space v ≡ trim_space s) strs
str_contains-eq-true_iff strs s = (str_contains-Any strs s, Any-str_contains strs s)

-- The first entry of a restricting list is one of its entries.
first-Any :
    (allowed : List String)
    → is_restricted allowed ≡ true
    → Any (λ v. trim_space v ≡ trim_space (first allowed)) allowed
unfolding is_restricted
first-Any [] e = cc
first-Any (url ∷ _) e = here refl

-- Where the list of clusters restricts requests, an accepted request goes to a cluster of the list,
-- up to spaces around the two; where it does not, the request names its cluster itself.
pub receiver_header-IsAllowed :
    (cfg : Configuration) (allowed : List String) (h : Values) (r : Receiver)
    → receiver_header cfg allowed h ≡ ok r
    → ((is_restricted allowed ≡ true) × Any (λ v. trim_space v ≡ trim_space r.pulsar_url) allowed)
      ⊎ ((is_restricted allowed ≡ false)
          × (r.pulsar_url ≡ header_get h "PulsarUrl")
          × (r.pulsar_url ≢ ""))
unfolding receiver_header
receiver_header-IsAllowed cfg allowed h r e = elim (Bool-cases (is_restricted allowed)) [
  | inl k ↦ elim (Bool-cases (header_get h "PulsarUrl" == "")) [
    | inl absent ↦
        let same : r.pulsar_url ≡ first allowed = ground arith in
        inl (k, rw same (first-Any allowed k))
    | inr given ↦ inl (k, str_contains-Any allowed r.pulsar_url (ground arith))
  ]
  | inr k ↦ inr (k, ground arith, ground (arith, eq_iff (header_get h "PulsarUrl") ""))
]

-- With a configured broker URL a request that names no cluster goes to the broker, and any other
-- cluster than the configured ones is refused.
pub receiver_header_default :
    (cfg : Configuration) (h : Values)
    → cfg.pulsar_broker_url ≢ ""
    → receiver_header cfg (allowed_pulsar_urls cfg) h ≡ (
        if header_get h "PulsarUrl" == ""
        then ok (receiver (receiver_token cfg h) (header_get h "TopicFn") cfg.pulsar_broker_url)
        else if str_contains (allowed_pulsar_urls cfg) (header_get h "PulsarUrl")
        then ok
            (receiver (receiver_token cfg h) (header_get h "TopicFn") (header_get h "PulsarUrl"))
        else err ("pulsar cluster " <> header_get h "PulsarUrl" <> " is not allowed"))
unfolding receiver_header allowed_pulsar_urls is_restricted
receiver_header_default cfg h set =
    let (p, ps, e) = split-ne-nil (assign_string (cfg.pulsar_clusters ∷ "" ∷ [])) "," in
    ground (arith, eq_iff cfg.pulsar_broker_url "", e)
