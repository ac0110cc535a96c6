-- ===== src/Crypto/KeyFiles.antt =====
-- src/icrypto/pulsar-jwt.go: the files of the keys that sign and verify the tokens.
pub mod Formats
use pulsar_beam.Prelude.{
  ℕ, ◌+◌, ◌*◌, ◌/◌, ◌<◌, String, Bool, true, false, ◌&&◌, ◌||◌, Option, none, some, List, [], ◌∷◌,
  ◌==◌, nat_eq, if◌then◌else◌, ◌≡◌, refl, Result, ok, err, arith,
}
use Prim.Native.Nat.{◌%◌}
use pulsar_beam.Crypto.{Bytes}
use pulsar_beam.Crypto.Base64.{IsByte}

-- The file system and the parsers of the Go library. A parser gives `none` for a key that is not an
-- RSA key. A file is the same each time that it is opened.
pub record KeyLibrary (Private Public : Type 0) : Type 0 where
  pub read_file : String → Result Bytes
  pub pem_decode : Bytes → Option Bytes
  pub parse_pkcs8_private_key : Bytes → Result (Option Private)
  pub parse_pkix_public_key : Bytes → Result (Option Public)

-- `log.Fatalf` ends the process.
pub data Loaded (Key : Type 0) : Type 0 where
  loaded : Key → Loaded Key
  panicked exited : Loaded Key

pub record RsaKeyPair (Private Public : Type 0) : Type 0 where
  pub private_key : Private
  pub public_key : Public

-- `binary.BigEndian.Uint32`.
abbrev pub big_endian : ℕ → ℕ → ℕ → ℕ → ℕ
big_endian a b c d = ((a * 256 + b) * 256 + c) * 256 + d

-- `magic&0xFFFF0000 == 0x30820000` and `magic&0x0000FF00 == 0x0300`.
abbrev pub magic_format : ℕ → Result String
magic_format magic =
    if nat_eq magic 0x2D2D2D2D || nat_eq magic 0x434f4e4e
    then ok "PEM"
    else if nat_eq (magic / 65536) 0x3082
    then if nat_eq (magic / 256 % 256) 3 then ok "DER" else ok "PKCS12"
    else err "undermined format"

-- `Peek` needs four bytes.
unfoldable pub file_format : Result Bytes → Result String
file_format (err e) = err e
file_format (ok []) = err "EOF"
file_format (ok (a ∷ [])) = err "EOF"
file_format (ok (a ∷ b ∷ [])) = err "EOF"
file_format (ok (a ∷ b ∷ c ∷ [])) = err "EOF"
file_format (ok (a ∷ b ∷ c ∷ d ∷ rest)) = magic_format (big_endian a b c d)

module _ {Private Public : Type 0} (library : KeyLibrary Private Public) where
  abbrev read_pk12 : Result Bytes → Option (Result Bytes)
  read_pk12 file = some file

  abbrev pub block_bytes : Option Bytes → Option (Result Bytes)
  block_bytes none = none
  block_bytes (some block) = some (ok block)

  -- Without a PEM block, the read of its bytes panics, which is `none`.
  abbrev pub decode_pem : Result Bytes → Option (Result Bytes)
  decode_pem (err e) = some (err e)
  decode_pem (ok bytes) = block_bytes (library.pem_decode bytes)

  abbrev pub read_as : Result Bytes → Result String → Option (Result Bytes)
  read_as file (err e) = some (err e)
  read_as file (ok format) =
      if format == "PEM"
      then decode_pem file
      else if format == "PKCS12"
      then read_pk12 file
      else some (err "unsupported format")

  unfoldable pub get_data_from_key_file : String → Option (Result Bytes)
  unfolding file_format
  get_data_from_key_file file =
      let bytes = library.read_file file in read_as bytes (file_format bytes)

  abbrev parsed_private : Result (Option Private) → Loaded Private
  parsed_private (err e) = panicked
  parsed_private (ok none) = exited
  parsed_private (ok (some key)) = loaded key

  abbrev parsed_public : Result (Option Public) → Loaded Public
  parsed_public (err e) = panicked
  parsed_public (ok none) = panicked
  parsed_public (ok (some key)) = loaded key

  abbrev private_of : Option (Result Bytes) → Loaded Private
  private_of none = panicked
  private_of (some (err e)) = exited
  private_of (some (ok bytes)) = parsed_private (library.parse_pkcs8_private_key bytes)

  abbrev public_of : Option (Result Bytes) → Loaded Public
  public_of none = panicked
  public_of (some (err e)) = exited
  public_of (some (ok bytes)) = parsed_public (library.parse_pkix_public_key bytes)

  unfoldable pub get_private_key : String → Loaded Private
  unfolding get_data_from_key_file
  get_private_key file = private_of (get_data_from_key_file file)

  unfoldable pub get_public_key : String → Loaded Public
  unfolding get_data_from_key_file
  get_public_key file = public_of (get_data_from_key_file file)

  abbrev pub pair : Loaded Private → Loaded Public → Loaded (RsaKeyPair Private Public)
  pair (loaded private_key) (loaded public_key) =
      loaded (record { private_key = private_key; public_key = public_key })
  pair (loaded private_key) panicked = panicked
  pair (loaded private_key) exited = exited
  pair panicked public_key = panicked
  pair exited public_key = exited

  abbrev pub keep_pair :
      Loaded (RsaKeyPair Private Public)
      → Loaded (RsaKeyPair Private Public) × Option (RsaKeyPair Private Public)
  keep_pair (loaded keys) = (loaded keys, some keys)
  keep_pair panicked = (panicked, none)
  keep_pair exited = (exited, none)

  -- The last argument is the package's variable `jwtRsaKeys`.
  unfoldable pub new_rsa_key_pair :
      String
      → String
      → Option (RsaKeyPair Private Public)
      → Loaded (RsaKeyPair Private Public) × Option (RsaKeyPair Private Public)
  unfolding get_private_key get_public_key
  new_rsa_key_pair private_key_path public_key_path (some keys) = (loaded keys, some keys)
  new_rsa_key_pair private_key_path public_key_path none =
      keep_pair (pair (get_private_key private_key_path) (get_public_key public_key_path))
