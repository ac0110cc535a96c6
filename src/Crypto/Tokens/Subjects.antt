-- ===== src/Crypto/Tokens/Subjects.antt =====
-- Whose a token is.
use pulsar_beam.Prelude.{
  String, true, false, Option, none, some, [], ◌∷◌, ◌==◌, Result, ok, err, ◌≡◌, refl, ◌↔◌, arith,
  eq_iff, eq_refl,
}
use pulsar_beam.Prelude.Maps.{lookup}
use pulsar_beam.Util.{Configuration}
use pulsar_beam.Route.Http.{Request, Handler}
use pulsar_beam.Middleware.{bearer, inject, auth_verify_jwt}
use pulsar_beam.Crypto.Tokens.{
  Claim, text, other, Token, Jwt, generate_token, decode_token, subject_text, token_subject,
  get_token_subject, same_subject, verified_subject, verify_token_subject,
}

module _ {Private Public : Type 0} (jwt : Jwt Private Public) where
  same_subject_iff :
      (subject : String) (claim : Option Claim)
      → (same_subject jwt subject claim ≡ ok true) ↔ (subject_text jwt claim ≡ some (ok subject))
  same_subject_iff subject none = ((λ h. cc), λ h. cc)
  same_subject_iff subject (some other) = ((λ h. cc), λ h. cc)
  same_subject_iff subject (some (text claimed)) = (
    (λ h. let e : claimed ≡ subject = ground (arith, eq_iff subject claimed) in rw e refl),
    (λ h. let e : claimed ≡ subject = cc in rw (e, eq_refl) refl),
  )

  verified_subject_iff :
      (subject : String) (token : Result Token)
      → (verified_subject jwt subject token ≡ ok true)
        ↔ (token_subject jwt token ≡ some (ok subject))
  verified_subject_iff subject (err e) = ((λ h. cc), λ h. cc)
  verified_subject_iff subject (ok token) = same_subject_iff subject (lookup "sub" token.claims)

  -- The two readings of a token agree: a subject is verified exactly if it is the one that the token
  -- is found to have.
  pub verify_token_subject_iff :
      (public_key : Public) (token_str subject : String)
      → (verify_token_subject jwt public_key token_str subject ≡ ok true)
        ↔ (get_token_subject jwt public_key token_str ≡ some (ok subject))
  unfolding verify_token_subject get_token_subject
  verify_token_subject_iff public_key token_str subject =
      verified_subject_iff subject (decode_token jwt public_key token_str)

  -- What the documentation of the library promises of a pair of keys that belong together: a text
  -- that was signed with the one, for a subject and no other claim, is a valid token for the other,
  -- with that claim.
  pub record IsKeyPair (private_key : Private) (public_key : Public) : Type 0 where
    pub parses :
        (subject signed : String)
        → jwt.signed_string private_key (("sub", text subject) ∷ []) ≡ ok signed
        → jwt.parse signed public_key
          ≡ ok (record { valid = true; claims = ("sub", text subject) ∷ [] })

  pub get_token_subject-generate_token :
      (private_key : Private) (public_key : Public) (subject token_str : String)
      → IsKeyPair private_key public_key
      → generate_token jwt private_key subject ≡ ok token_str
      → get_token_subject jwt public_key token_str ≡ some (ok subject)
  unfolding generate_token get_token_subject decode_token lookup
  get_token_subject-generate_token private_key public_key subject token_str keys h =
      rw (keys.parses subject token_str h) refl

  -- A request that carries a token generated for a subject is served with that subject, unless the
  -- authentication is off. The middleware reads the subjects of tokens by any function that gives
  -- what `GetTokenSubject` returns where that does not panic.
  pub auth_verify_jwt-generate_token :
      {S : Type 0} (private_key : Private) (public_key : Public) (subject token_str : String)
      (config : Configuration) (reads : String → Result String) (next : Handler S) (r : Request)
      (s : S)
      → IsKeyPair private_key public_key
      → ((t : String) (x : Result String)
          → get_token_subject jwt public_key t ≡ some x
          → reads t ≡ x)
      → (config.http_auth_impl == "noauth") ≡ false
      → generate_token jwt private_key subject ≡ ok token_str
      → bearer r ≡ token_str
      → auth_verify_jwt config reads next r s ≡ next (inject subject r) s
  unfolding auth_verify_jwt
  auth_verify_jwt-generate_token private_key public_key subject token_str config reads next r s keys
        agree on h b =
      rw
        (
          on,
          b,
          agree token_str (ok subject)
              (get_token_subject-generate_token private_key public_key subject token_str keys h),
        )
        refl
