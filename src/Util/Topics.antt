-- ===== src/Util/Topics.antt =====
-- `BuildTopicFn` and `TokenizeTopicFullName` fit together.
use pulsar_beam.Prelude.{
  String, Bool, true, false, ◌||◌, ◌≡◌, inl, inr, [], ◌∷◌, Result, ok, ok-injective, Bool-cases,
  ◌==◌,
}
use pulsar_beam.Strings.{◌<>◌, split, has_prefix, replace_first}
use pulsar_beam.Strings.Splitting.{Lacks, split-append, split_lacking}
use pulsar_beam.Util.{TopicParts, build_topic_fn, tokenize_topic_full_name}

split_route :
    (tenant namespace topic : String)
    → Lacks "/" tenant
    → Lacks "/" namespace
    → Lacks "/" topic
    → split (tenant <> "/" <> namespace <> "/" <> topic) "/" ≡ tenant ∷ namespace ∷ topic ∷ []
split_route tenant namespace topic t n p = rw (
  split-append "/" tenant (namespace <> "/" <> topic) t,
  split-append "/" namespace topic n,
  split_lacking "/" topic p,
)

abbrev parts_of : Bool → String → String → String → Result TopicParts
parts_of is_persistent tenant namespace topic = ok (record {
  is_persistent = is_persistent;
  tenant = tenant;
  namespace = namespace;
  topic = topic;
})

module _ (tenant namespace topic : String) (t : Lacks "/" tenant) (n : Lacks "/" namespace)
    (p : Lacks "/" topic) where
  tokenize_persistent :
      tokenize_topic_full_name ("persistent://" <> tenant <> "/" <> namespace <> "/" <> topic)
      ≡ parts_of true tenant namespace topic
  unfolding tokenize_topic_full_name has_prefix replace_first
  tokenize_persistent = rw (split_route tenant namespace topic t n p)

  tokenize_non_persistent :
      tokenize_topic_full_name ("non-persistent://" <> tenant <> "/" <> namespace <> "/" <> topic)
      ≡ parts_of false tenant namespace topic
  unfolding tokenize_topic_full_name has_prefix replace_first
  tokenize_non_persistent = rw (split_route tenant namespace topic t n p)

-- Tokenizing a full name that was built from parts without a slash gives back the parts, and
-- whether the topic is persistent.
pub tokenize-build :
    (persistent tenant namespace topic fn : String)
    → Lacks "/" tenant
    → Lacks "/" namespace
    → Lacks "/" topic
    → build_topic_fn persistent tenant namespace topic ≡ ok fn
    → tokenize_topic_full_name fn
      ≡ ok (record {
        is_persistent = persistent == "persistent" || persistent == "p";
        tenant = tenant;
        namespace = namespace;
        topic = topic;
      })
unfolding build_topic_fn
tokenize-build persistent tenant namespace topic fn t n p e =
    elim (Bool-cases (persistent == "persistent" || persistent == "p")) [
      | inl h ↦
          rw (h, ← ok-injective (rw h at e)) (tokenize_persistent tenant namespace topic t n p)
      | inr h ↦ elim (Bool-cases (persistent == "non-persistent" || persistent == "np")) [
        | inl k ↦
            rw (h, ← ok-injective (rw (h, k) at e))
              (tokenize_non_persistent tenant namespace topic t n p)
        | inr k ↦ absurd (cc (rw (h, k) at e))
      ]
    ]
