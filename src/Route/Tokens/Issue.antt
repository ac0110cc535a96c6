-- ===== src/Route/Tokens/Issue.antt =====
-- Who is given a token.
use pulsar_beam.Prelude.{
  ℕ, ◌<◌, arith, String, true, some, ◌≡◌, ◌↔◌, inl, inr, refl, Result, ok, Result-cases,
  Option-cases, Bool-cases,
}
use pulsar_beam.Prelude.Maps.{lookup}
use pulsar_beam.Route.Http.{Request, Server, Writer}
use pulsar_beam.Route.Tokens.{may_issue, token_subject_handler}

-- A request is answered with a token.
pub record IsIssued (server : Server) (generate_token : String → Result String) (r : Request)
    : Type 0 where
  pub subject : String
  pub token : String
  pub json : String
  pub named : lookup "sub" r.vars ≡ some subject
  pub allowed : may_issue server r ≡ true
  pub generated : generate_token subject ≡ ok token
  pub encoded : server.coder.encode_token subject token ≡ ok json

other_status :
    {A : Type 0} (w : Writer) (code : ℕ)
    → w.status ≡ some code
    → w.status ≡ some 200
    → 200 < code
    → A
other_status w code h k lt = let e : code ≡ 200 = ground arith in absurd (omega arith)

-- The reply has status 200 exactly if the route names a subject, the request's own subjects are a
-- super role, and a token for the named subject can be made and encoded.
pub token_subject_handler-IsIssued_iff :
    (server : Server) (generate_token : String → Result String) (r : Request)
    → ((token_subject_handler server generate_token r).status ≡ some 200)
      ↔ IsIssued server generate_token r
unfolding token_subject_handler
token_subject_handler-IsIssued_iff server generate_token r = (issued, replied)
  where
    replied :
        IsIssued server generate_token r
        → (token_subject_handler server generate_token r).status ≡ some 200
    replied i = rw (i.named, i.allowed, i.generated, i.encoded) refl

    issued :
        (token_subject_handler server generate_token r).status ≡ some 200
        → IsIssued server generate_token r
    issued h =
        let w = token_subject_handler server generate_token r in
        elim (Option-cases (lookup "sub" r.vars)) [
          | inl missing ↦ other_status w 422 (rw missing refl) h (omega arith)
          | inr (subject, named) ↦ elim (Bool-cases (may_issue server r)) [
            | inr other ↦ other_status w 401 (rw (named, other) refl) h (omega arith)
            | inl allowed ↦ elim (Result-cases (generate_token subject)) [
              | inr (e, bad) ↦ other_status w 500 (rw (named, allowed, bad) refl) h (omega arith)
              | inl (token, generated) ↦
                  elim (Result-cases (server.coder.encode_token subject token)) [
                    | inr (e, bad) ↦
                        other_status w 500 (rw (named, allowed, generated, bad) refl) h
                          (omega arith)
                    | inl (json, encoded) ↦ record {
                      subject = subject;
                      token = token;
                      json = json;
                      named = named;
                      allowed = allowed;
                      generated = generated;
                      encoded = encoded;
                    }
                  ]
            ]
          ]
        ]
