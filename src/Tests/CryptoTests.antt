-- ===== src/Tests/CryptoTests.antt =====
-- src/icrypto and the reading of the configuration at concrete inputs.
use pulsar_beam.Prelude.{
  ℕ, zero, suc, String, true, none, some, List, [], ◌∷◌, ◌==◌, All, length, Result, ok, err, ◌≡◌,
  refl, arith, eq_iff, if◌then◌else◌,
}
use pulsar_beam.Prelude.Maps.{Map, lookup, insert}
use pulsar_beam.Strings.{trim_space, replace_first}
use pulsar_beam.Util.{header_get}
use pulsar_beam.Util.Settings.{text, Fields, default_fields, trim_newline, overridden, read_fields}
use pulsar_beam.Util.Settings.Environment.{Distinct, is_distinct-Distinct, read_fields-overridden}
use pulsar_beam.Route.Http.{Request, Handler, fresh}
use pulsar_beam.Middleware.{auth_verify_jwt, inject, bearer}
use pulsar_beam.Crypto.{Bytes, ascii}
use pulsar_beam.Crypto.Base64
use pulsar_beam.Crypto.Base64.{IsByte}
use pulsar_beam.Crypto.Aes.{
  Gcm, IsGcm, encrypt, encrypt_with_default_key, encrypt_with_base64, decrypt_with_base64,
  decrypt_with_base64-encrypt_with_base64,
}
use pulsar_beam.Crypto.KeyFiles.{KeyLibrary, get_data_from_key_file}
use pulsar_beam.Crypto.KeyFiles.Formats.{get_data_from_key_file-described}
use pulsar_beam.Crypto.Tokens.{
  Claim, text, Token, Jwt, generate_token, get_token_subject, decode_token,
}
use pulsar_beam.Crypto.Tokens.Subjects.{IsKeyPair, auth_verify_jwt-generate_token}
use pulsar_beam.Tests.Samples.{config, ask}

base64_tests :
    (Base64.encode (77 ∷ 97 ∷ 110 ∷ []) ≡ ascii "TWFu")
    × (Base64.encode (77 ∷ 97 ∷ []) ≡ ascii "TWE=")
    × (Base64.encode (77 ∷ []) ≡ ascii "TQ==")
    × (Base64.decode (ascii "TW\nE=") ≡ ok (77 ∷ 97 ∷ []))
    × (Base64.decode (ascii "TWE") ≡ Base64.corrupt)
unfolding Base64.encode Base64.decode Base64.decode_groups Base64.strip_lines ascii
base64_tests = (refl, refl, refl, refl, refl)

-- A cipher that hides nothing.
abbrev zeros : ℕ → Bytes
zeros zero = []
zeros (suc n) = 0 ∷ zeros n

length-zeros : (n : ℕ) → length (zeros n) ≡ n
length-zeros zero = omega arith
length-zeros (suc n) = omega (arith, length-zeros n)

zeros-IsByte : (n : ℕ) → All IsByte (zeros n)
zeros-IsByte zero = tt
zeros-IsByte (suc n) = (omega arith, zeros-IsByte n)

abbrev gcm : Gcm
gcm = record {
  new_cipher = λ key. none;
  nonce_size = 12;
  read_random = λ n size. ok (zeros size);
  seal = λ key nonce plaintext. plaintext;
  open_sealed = λ key nonce ciphertext. ok ciphertext;
}

gcm-IsGcm : IsGcm gcm
gcm-IsGcm = record {
  accepts = λ key h. refl;
  nonce = λ n size bytes h. let e : zeros size ≡ bytes = cc in rw (← e) (length-zeros size);
  random_bytes = λ n size bytes h. let e : zeros size ≡ bytes = cc in rw (← e) (zeros-IsByte size);
  opens = λ key nonce plaintext b h. refl;
  sealed_bytes = λ key nonce plaintext b. b;
}

abbrev encrypted : Bytes
unfolding Base64.encode
encrypted = Base64.encode (0 ∷ 0 ∷ 0 ∷ 0 ∷ 0 ∷ 0 ∷ 0 ∷ 0 ∷ 0 ∷ 0 ∷ 0 ∷ 0 ∷ 104 ∷ 105 ∷ [])

decrypt_with_base64-encrypt_with_base64_example :
    decrypt_with_base64 gcm encrypted ≡ ok (104 ∷ 105 ∷ [])
unfolding encrypted encrypt_with_base64 encrypt_with_default_key encrypt
decrypt_with_base64-encrypt_with_base64_example =
    decrypt_with_base64-encrypt_with_base64 gcm gcm-IsGcm 0 (104 ∷ 105 ∷ []) encrypted
      (omega arith, (omega arith, tt)) refl

-- Keys are texts, and every file is the one of a key of 1,000 bytes.
abbrev key_bytes : Bytes
key_bytes = 0x30 ∷ 0x82 ∷ 3 ∷ 0xE4 ∷ 2 ∷ []

abbrev library : KeyLibrary String String
library = record {
  read_file = λ file. ok key_bytes;
  pem_decode = λ bytes. none;
  parse_pkcs8_private_key = λ bytes. ok (some "private");
  parse_pkix_public_key = λ bytes. ok (some "public");
}

get_data_from_key_file-described_example :
    get_data_from_key_file library "private.key" ≡ some (err "unsupported format")
get_data_from_key_file-described_example =
    get_data_from_key_file-described library "private.key" key_bytes refl
      (omega arith, (omega arith, (omega arith, (omega arith, (omega arith, tt)))))

-- A library that signs nothing but a subject, and whose token is that subject.
abbrev subject_only : Map Claim → Result String
subject_only [] = err "unsupported"
subject_only ((name, Claim.other) ∷ claims) = err "unsupported"
subject_only ((name, text s) ∷ []) = if name == "sub" then ok s else err "unsupported"
subject_only ((name, text s) ∷ c ∷ claims) = err "unsupported"

abbrev token_of : String → Token
token_of s = record { valid = true; claims = ("sub", text s) ∷ [] }

abbrev jwt : Jwt String String
jwt = record { signed_string = λ key claims. subject_only claims; parse = λ s key. ok (token_of s) }

jwt-IsKeyPair : IsKeyPair jwt "private" "public"
jwt-IsKeyPair = record { parses = λ subject signed h. let e : subject ≡ signed = cc in rw e refl }

subject_read :
    (t : String) (x : Result String) → get_token_subject jwt "public" t ≡ some x → ok t ≡ x
unfolding get_token_subject decode_token lookup
subject_read t x h = cc

abbrev alice : Request
alice = record (ask "") { headers = ("Authorization", "Bearer alice" ∷ []) ∷ [] }

abbrev serve : Handler (List String)
serve r s = (fresh, header_get r.headers "injectedSubs" ∷ s)

auth_verify_jwt-generate_token_example :
    auth_verify_jwt config (λ t. ok t) serve alice [] ≡ serve (inject "alice" alice) []
unfolding generate_token bearer trim_space replace_first header_get
auth_verify_jwt-generate_token_example =
    auth_verify_jwt-generate_token jwt "private" "public" "alice" "alice" config (λ t. ok t) serve
      alice [] jwt-IsKeyPair subject_read (ground (arith, eq_iff "" "noauth")) refl refl

-- The file says 8085, the environment 9090 at the end of a line.
abbrev file_fields : Fields
file_fields = ("PORT", text "8085") ∷ ("CLUSTER", text "local") ∷ []

abbrev fields_read : Fields
fields_read = ("PORT", text "9090") ∷ ("CLUSTER", text "local") ∷ []

abbrev environment : Map String
environment = ("PORT", "9090\n") ∷ []

read_fields-overridden_example :
    (lookup "PORT" fields_read ≡ some (text (overridden "8085" (lookup "PORT" environment))))
    × (lookup "PORT" (("PORT", "9090") ∷ ("CLUSTER", "local") ∷ [])
        ≡ some (overridden "8085" (lookup "PORT" environment)))
unfolding read_fields lookup insert trim_newline
read_fields-overridden_example =
    read_fields-overridden file_fields environment fields_read
      (("PORT", "9090") ∷ ("CLUSTER", "local") ∷ []) "PORT" "8085" ((refl, tt), (tt, tt)) refl refl

default_fields-Distinct : Distinct default_fields
default_fields-Distinct = is_distinct-Distinct default_fields refl
