-- ===== src/Crypto/Tokens.antt =====
-- src/icrypto/pulsar-jwt.go: the tokens.
pub mod Subjects
use pulsar_beam.Prelude.{
  String, Bool, true, false, Option, none, some, List, [], ◌∷◌, ◌==◌, if◌then◌else◌, Result, ok,
  err,
}
use pulsar_beam.Prelude.Maps.{Map, lookup}

-- The value of a claim: a string or something else.
pub data Claim : Type 0 where
  text : String → Claim
  other : Claim

pub record Token : Type 0 where
  pub valid : Bool
  pub claims : Map Claim

-- The library of the tokens: a token signed by RS256 that claims a subject, and the token of a text
-- that is checked with a key.
pub record Jwt (Private Public : Type 0) : Type 0 where
  pub signed_string : Private → Map Claim → Result String
  pub parse : String → Public → Result Token

module _ {Private Public : Type 0} (jwt : Jwt Private Public) where
  unfoldable pub generate_token : Private → String → Result String
  generate_token private_key user_subject =
      jwt.signed_string private_key (("sub", text user_subject) ∷ [])

  abbrev pub checked : Result Token → Result Token
  checked (err e) = err e
  checked (ok token) = if token.valid then ok token else err "invalid token"

  -- The key is that of the package's variable `jwtRsaKeys`, which the making of a pair has set.
  unfoldable pub decode_token : Public → String → Result Token
  decode_token public_key token_str = checked (jwt.parse token_str public_key)

  -- A subject that is not a string panics, which is `none`.
  abbrev pub subject_text : Option Claim → Option (Result String)
  subject_text none = some (err "missing subjects")
  subject_text (some (text subjects)) = some (ok subjects)
  subject_text (some other) = none

  abbrev pub token_subject : Result Token → Option (Result String)
  token_subject (err e) = some (err e)
  token_subject (ok token) = subject_text (lookup "sub" token.claims)

  unfoldable pub get_token_subject : Public → String → Option (Result String)
  unfolding decode_token lookup
  get_token_subject public_key token_str = token_subject (decode_token public_key token_str)

  -- The comparison of a string with a claim.
  abbrev pub same_subject : String → Option Claim → Result Bool
  same_subject subject (some (text claimed)) =
      if subject == claimed then ok true else err "incorrect sub"
  same_subject subject (some other) = err "incorrect sub"
  same_subject subject none = err "incorrect sub"

  abbrev pub verified_subject : String → Result Token → Result Bool
  verified_subject subject (err e) = err e
  verified_subject subject (ok token) = same_subject subject (lookup "sub" token.claims)

  unfoldable pub verify_token_subject : Public → String → String → Result Bool
  unfolding decode_token lookup
  verify_token_subject public_key token_str subject =
      verified_subject subject (decode_token public_key token_str)
