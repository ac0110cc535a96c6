-- ===== src/Crypto/Rsa.antt =====
-- src/icrypto/icrypto.go: RSA.
use pulsar_beam.Prelude.{ℕ, Option, none, some, Result, ok, err, ok-injective, ◌≡◌, refl, sym, ap}
use pulsar_beam.Crypto.{Bytes}

-- Go's RSA keys. The first argument of `generate_key` and of `encrypt` is the number of the call that
-- reads random bytes.
pub record RsaLibrary (Private Public : Type 0) : Type 0 where
  pub generate_key : ℕ → Result Private
  pub public_of : Private → Public
  pub parse_private : Bytes → Result Private
  pub parse_public : Bytes → Result Public
  pub marshal_private : Private → Bytes
  pub marshal_public : Public → Bytes
  pub encrypt_pkcs1v15 : ℕ → Public → Bytes → Result Bytes
  pub decrypt_pkcs1v15 : Private → Bytes → Result Bytes

-- What the documentation of the packages promises.
pub record IsRsaLibrary {Private Public : Type 0} (library : RsaLibrary Private Public)
    : Type 0 where
  pub parses : (key : Public) → library.parse_public (library.marshal_public key) ≡ ok key
  pub decrypts :
      (n : ℕ) (key : Private) (plaintext ciphertext : Bytes)
      → library.encrypt_pkcs1v15 n (library.public_of key) plaintext ≡ ok ciphertext
      → library.decrypt_pkcs1v15 key ciphertext ≡ ok plaintext

-- `none` is a nil pointer.
pub record Rsa (Private Public : Type 0) : Type 0 where
  pub my_private_key : Option Private
  pub my_public_key : Option Public

module _ {Private Public : Type 0} (library : RsaLibrary Private Public) where
  abbrev kept : {Key : Type 0} → Result Key → Result (Option Key)
  kept (err e) = err e
  kept (ok key) = ok (some key)

  abbrev parse_if : {Key : Type 0} → (Bytes → Result Key) → Option Bytes → Result (Option Key)
  parse_if parse none = ok none
  parse_if parse (some bytes) = kept (parse bytes)

  abbrev both : Result (Option Private) → Result (Option Public) → Result (Rsa Private Public)
  both (err e) public_key = err e
  both (ok private_key) (err e) = err e
  both (ok private_key) (ok public_key) =
      ok (record { my_private_key = private_key; my_public_key = public_key })

  unfoldable pub new_rsa_with_keys : Option Bytes → Option Bytes → Result (Rsa Private Public)
  new_rsa_with_keys priv public_bytes =
      both (parse_if library.parse_private priv) (parse_if library.parse_public public_bytes)

  abbrev generated : Result Private → Result (Rsa Private Public)
  generated (err e) = err e
  generated (ok key) =
      ok (record { my_private_key = some key; my_public_key = some (library.public_of key) })

  unfoldable pub new_rsa : ℕ → Result (Rsa Private Public)
  new_rsa n = generated (library.generate_key n)

  abbrev exported : {Key : Type 0} → (Key → Bytes) → Option Key → Option Bytes
  exported marshal none = none
  exported marshal (some key) = some (marshal key)

  -- `none` is a panic, here and in the functions below.
  unfoldable pub get_public_key : Rsa Private Public → Option Bytes
  get_public_key a = exported library.marshal_public a.my_public_key

  unfoldable pub get_private_key : Rsa Private Public → Option Bytes
  get_private_key a = exported library.marshal_private a.my_private_key

  abbrev encrypt_by : ℕ → Bytes → Option Public → Option (Result Bytes)
  encrypt_by n plaintext none = none
  encrypt_by n plaintext (some key) = some (library.encrypt_pkcs1v15 n key plaintext)

  unfoldable pub rsa_encrypt : Rsa Private Public → ℕ → Bytes → Option (Result Bytes)
  rsa_encrypt a n plaintext = encrypt_by n plaintext a.my_public_key

  abbrev decrypt_by : Bytes → Option Private → Option (Result Bytes)
  decrypt_by ciphertext none = none
  decrypt_by ciphertext (some key) = some (library.decrypt_pkcs1v15 key ciphertext)

  unfoldable pub rsa_decrypt : Rsa Private Public → Bytes → Option (Result Bytes)
  rsa_decrypt a ciphertext = decrypt_by ciphertext a.my_private_key

module _ {Private Public : Type 0} (library : RsaLibrary Private Public)
    (lawful : IsRsaLibrary library) where
  generated_pair :
      (x : Result Private) (keys : Rsa Private Public)
      → generated library x ≡ ok keys
      → (key : Private) × (keys
          ≡ record { my_private_key = some key; my_public_key = some (library.public_of key) })
  generated_pair (err e) keys h = cc
  generated_pair (ok key) keys h = (key, cc)

  -- What is encrypted with nothing but the exported public key of a new pair is decrypted by the pair.
  pub rsa_decrypt-rsa_encrypt :
      (n m : ℕ) (keys peer : Rsa Private Public) (public_bytes plaintext ciphertext : Bytes)
      → new_rsa library n ≡ ok keys
      → get_public_key library keys ≡ some public_bytes
      → new_rsa_with_keys library none (some public_bytes) ≡ ok peer
      → rsa_encrypt library peer m plaintext ≡ some (ok ciphertext)
      → rsa_decrypt library keys ciphertext ≡ some (ok plaintext)
  unfolding new_rsa get_public_key new_rsa_with_keys rsa_encrypt rsa_decrypt
  rsa_decrypt-rsa_encrypt n m keys peer public_bytes plaintext ciphertext made exports imports
        sent =
      let (key, e) = generated_pair (library.generate_key n) keys made in
      let same : library.marshal_public (library.public_of key) ≡ public_bytes =
        cc (rw e at exports) in
      let parsed : library.parse_public public_bytes ≡ ok (library.public_of key) =
        rw (← same) (lawful.parses (library.public_of key)) in
      let known : ok
            (record { my_private_key = none; my_public_key = some (library.public_of key) })
          ≡ ok peer =
        rw parsed at imports in
      let public_key : peer.my_public_key ≡ some (library.public_of key) =
        sym (ap (λ p. p.my_public_key) (ok-injective known)) in
      let encrypted : library.encrypt_pkcs1v15 m (library.public_of key) plaintext ≡ ok ciphertext =
        cc (rw public_key at sent) in
      rw (e, lawful.decrypts m key plaintext ciphertext encrypted) refl
