-- ===== src/Crypto/KeyFiles/Formats.antt =====
-- Which files are taken for a key, and how.
use pulsar_beam.Prelude.{
  ℕ, ◌/◌, ◌<◌, String, Bool, true, false, ◌&&◌, ◌||◌, Option, none, some, [], ◌∷◌, nat_eq,
  if◌then◌else◌, ◌≡◌, refl, Result, ok, err, arith, All,
}
use Prim.Native.Nat.{◌%◌}
use pulsar_beam.Crypto.{Bytes}
use pulsar_beam.Crypto.Base64.{IsByte}
use pulsar_beam.Crypto.KeyFiles.{
  KeyLibrary, RsaKeyPair, Loaded, loaded, panicked, exited, big_endian, file_format, block_bytes,
  read_as, get_data_from_key_file, new_rsa_key_pair, keep_pair,
}

magic-same :
    (a b c d a' b' c' d' : ℕ)
    → b < 256
    → c < 256
    → d < 256
    → b' < 256
    → c' < 256
    → d' < 256
    → nat_eq (big_endian a b c d) (big_endian a' b' c' d')
      ≡ (nat_eq a a' && nat_eq b b' && nat_eq c c' && nat_eq d d')
magic-same a b c d a' b' c' d' hb hc hd hb' hc' hd' = ground arith

magic-upper :
    (a b c d : ℕ)
    → b < 256
    → c < 256
    → d < 256
    → nat_eq (big_endian a b c d / 65536) 0x3082 ≡ (nat_eq a 0x30 && nat_eq b 0x82)
magic-upper a b c d hb hc hd = ground arith

magic-third : (a b c d : ℕ) → c < 256 → d < 256 → big_endian a b c d / 256 % 256 ≡ c
magic-third a b c d hc hd = omega arith

module _ {Private Public : Type 0} (library : KeyLibrary Private Public) where
  -- What the first bytes of a file stand for, byte by byte.
  abbrev pub described : Bytes → Option (Result Bytes)
  described (a ∷ b ∷ c ∷ d ∷ rest) =
      let bytes = a ∷ b ∷ c ∷ d ∷ rest in
      if nat_eq a 0x2D && nat_eq b 0x2D && nat_eq c 0x2D && nat_eq d 0x2D
        || nat_eq a 0x43 && nat_eq b 0x4F && nat_eq c 0x4E && nat_eq d 0x4E
      then block_bytes library (library.pem_decode bytes)
      else if nat_eq a 0x30 && nat_eq b 0x82
      then if nat_eq c 3 then some (err "unsupported format") else some (ok bytes)
      else some (err "undermined format")
  described bytes = some (err "EOF")

  read_described :
      (pem upper third : Bool) (bytes : Bytes)
      → read_as library (ok bytes) (
          if pem
          then ok "PEM"
          else if upper
          then if third then ok "DER" else ok "PKCS12"
          else err "undermined format")
        ≡ (if pem
            then block_bytes library (library.pem_decode bytes)
            else if upper
            then if third then some (err "unsupported format") else some (ok bytes)
            else some (err "undermined format"))
  read_described true upper third bytes = refl
  read_described false true true bytes = refl
  read_described false true false bytes = refl
  read_described false false third bytes = refl

  read_as-described :
      (bytes : Bytes)
      → All IsByte bytes
      → read_as library (ok bytes) (file_format (ok bytes)) ≡ described bytes
  unfolding file_format
  read_as-described [] _ = refl
  read_as-described (a ∷ []) _ = refl
  read_as-described (a ∷ b ∷ []) _ = refl
  read_as-described (a ∷ b ∷ c ∷ []) _ = refl
  read_as-described (a ∷ b ∷ c ∷ d ∷ rest) (ha, (hb, (hc, (hd, _)))) =
      rw
        (
          magic-same a b c d 0x2D 0x2D 0x2D 0x2D hb hc hd (omega arith) (omega arith) (omega arith),
          magic-same a b c d 0x43 0x4F 0x4E 0x4E hb hc hd (omega arith) (omega arith) (omega arith),
          magic-upper a b c d hb hc hd,
          magic-third a b c d hc hd,
        )
        (read_described
          (nat_eq a 0x2D && nat_eq b 0x2D && nat_eq c 0x2D && nat_eq d 0x2D
            || nat_eq a 0x43 && nat_eq b 0x4F && nat_eq c 0x4E && nat_eq d 0x4E)
          (nat_eq a 0x30 && nat_eq b 0x82) (nat_eq c 3) (a ∷ b ∷ c ∷ d ∷ rest))

  -- A file that can be read is taken for a key by its first four bytes: with four dashes or the
  -- letters CONN, for a PEM file, whose first block is the key, and the read panics if there is none;
  -- with 30 82 and then a byte other than 03, for the key itself; with 30 82 03, or anything else, it
  -- is refused.
  pub get_data_from_key_file-described :
      (file : String) (bytes : Bytes)
      → library.read_file file ≡ ok bytes
      → All IsByte bytes
      → get_data_from_key_file library file ≡ described bytes
  unfolding get_data_from_key_file
  get_data_from_key_file-described file bytes h b = rw h (read_as-described bytes b)

  keep_pair-loaded :
      (x : Loaded (RsaKeyPair Private Public)) (keys : RsaKeyPair Private Public)
      (jwt_rsa_keys : Option (RsaKeyPair Private Public))
      → keep_pair library x ≡ (loaded keys, jwt_rsa_keys)
      → jwt_rsa_keys ≡ some keys
  keep_pair-loaded (loaded made) keys jwt_rsa_keys h = cc
  keep_pair-loaded panicked keys jwt_rsa_keys h = cc
  keep_pair-loaded exited keys jwt_rsa_keys h = cc

  new_rsa_key_pair-kept :
      (private_key_path public_key_path : String) (held : Option (RsaKeyPair Private Public))
      (keys : RsaKeyPair Private Public) (jwt_rsa_keys : Option (RsaKeyPair Private Public))
      → new_rsa_key_pair library private_key_path public_key_path held ≡ (loaded keys, jwt_rsa_keys)
      → jwt_rsa_keys ≡ some keys
  unfolding new_rsa_key_pair
  new_rsa_key_pair-kept private_key_path public_key_path (some made) keys jwt_rsa_keys h = cc
  new_rsa_key_pair-kept private_key_path public_key_path none keys jwt_rsa_keys h =
      keep_pair-loaded _ keys jwt_rsa_keys h

  -- The keys that were loaded once are those of every later call, whatever files it names.
  pub new_rsa_key_pair-once :
      (private_key_path public_key_path later_private later_public : String)
      (held : Option (RsaKeyPair Private Public)) (keys : RsaKeyPair Private Public)
      (jwt_rsa_keys : Option (RsaKeyPair Private Public))
      → new_rsa_key_pair library private_key_path public_key_path held ≡ (loaded keys, jwt_rsa_keys)
      → new_rsa_key_pair library later_private later_public jwt_rsa_keys
        ≡ (loaded keys, jwt_rsa_keys)
  unfolding new_rsa_key_pair
  new_rsa_key_pair-once private_key_path public_key_path later_private later_public held keys
        jwt_rsa_keys h =
      rw (new_rsa_key_pair-kept private_key_path public_key_path held keys jwt_rsa_keys h) refl
