-- ===== src/Route/Tables/Guards.antt =====
-- Which routes a mode serves, and which of them anyone may call.
use pulsar_beam.Prelude.{
  Bool-cases, inl, inr, String, Bool, true, false, not, ◌&&◌, ◌||◌, List, [], ◌∷◌, ◌≡◌, refl, ◌==◌,
  arith, eq_iff,
}
use pulsar_beam.Util.{hybrid, receiver_mode, http_only, token_server, http_with_no_rest}
use pulsar_beam.Route.Tables.{
  HandlerFunc, AuthFunc, auth_verify_jwt, Route, get_effective_routes, update_topic_handler,
  delete_topic_handler, get_topic_handler,
}

abbrev pub verifies : AuthFunc → Bool
verifies auth_verify_jwt = true
verifies _ = false

abbrev manages : HandlerFunc → Bool
manages get_topic_handler = true
manages update_topic_handler = true
manages delete_topic_handler = true
manages _ = false

-- The patterns that are meant to be open.
abbrev pub open_patterns : List String
open_patterns = "/metrics" ∷ "/status" ∷ "/v1/firehose" ∷ []

abbrev pub among : List String → String → Bool
among [] s = false
among (p ∷ ps) s = s == p || among ps s

abbrev pub all_guarded : List Route → Bool
all_guarded [] = true
all_guarded (r ∷ rs) = (verifies r.auth_func || among open_patterns r.pattern) && all_guarded rs

abbrev pub any_manages : List Route → Bool
any_manages [] = false
any_manages (r ∷ rs) = manages r.handler_func || any_manages rs

-- In every mode, every route that is served verifies a token, but for the metrics, the status page
-- and the first version of the receiver.
pub get_effective_routes-guarded : (mode : String) → all_guarded (get_effective_routes mode) ≡ true
unfolding get_effective_routes
get_effective_routes-guarded mode = ground arith

-- The documents are managed in every mode, unknown ones included, but for the three that are
-- without that service.
pub get_effective_routes-manages :
    (mode : String)
    → any_manages (get_effective_routes mode)
      ≡ not (mode == receiver_mode || mode == token_server || mode == http_with_no_rest)
unfolding get_effective_routes
get_effective_routes-manages mode = elim (Bool-cases (mode == hybrid)) [
  | inl h ↦ rw ((eq_iff mode hybrid).0 h) refl
  | inr h1 ↦ elim (Bool-cases (mode == receiver_mode)) [
    | inl h ↦ rw ((eq_iff mode receiver_mode).0 h) refl
    | inr h2 ↦ elim (Bool-cases (mode == http_only)) [
      | inl h ↦ rw ((eq_iff mode http_only).0 h) refl
      | inr h3 ↦ elim (Bool-cases (mode == token_server)) [
        | inl h ↦ rw ((eq_iff mode token_server).0 h) refl
        | inr h4 ↦ elim (Bool-cases (mode == http_with_no_rest)) [
          | inl h ↦ rw ((eq_iff mode http_with_no_rest).0 h) refl
          | inr h5 ↦ rw (h1, h2, h3, h4, h5) refl
        ]
      ]
    ]
  ]
]
