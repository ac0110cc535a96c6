-- ===== src/Crypto/Aes.antt =====
-- src/icrypto/icrypto.go: AES, and src/icrypto/util.go: texts that are encrypted and printed.
use pulsar_beam.Prelude.{
  ℕ, String, Option, none, some, [], ◌∷◌, ◌++◌, length, length-append, All-append, ltb, take,
  if◌then◌else◌, ◌≡◌, refl, ap, false, Result, ok, err, arith, All,
}
use pulsar_beam.Crypto.{Bytes, ascii, drop}
use pulsar_beam.Crypto.Base64
use pulsar_beam.Crypto.Base64.{IsByte, decode-encode}

-- Go's AES in the mode GCM, and its source of random bytes; the first argument of `read_random` is the
-- number of the call.
pub record Gcm : Type 0 where
  -- the error of `aes.NewCipher` for a key
  pub new_cipher : Bytes → Option String
  pub nonce_size : ℕ
  pub read_random : ℕ → ℕ → Result Bytes
  pub seal : Bytes → Bytes → Bytes → Bytes
  pub open_sealed : Bytes → Bytes → Bytes → Result Bytes

-- What the documentation of the packages promises for the keys of 16 bytes.
pub record IsGcm (gcm : Gcm) : Type 0 where
  pub accepts : (key : Bytes) → length key ≡ 16 → gcm.new_cipher key ≡ none
  pub nonce : (n size : ℕ) (bytes : Bytes) → gcm.read_random n size ≡ ok bytes → length bytes ≡ size
  pub random_bytes :
      (n size : ℕ) (bytes : Bytes) → gcm.read_random n size ≡ ok bytes → All IsByte bytes
  pub opens :
      (key nonce plaintext : Bytes)
      → All IsByte plaintext
      → length nonce ≡ gcm.nonce_size
      → gcm.open_sealed key nonce (gcm.seal key nonce plaintext) ≡ ok plaintext
  pub sealed_bytes :
      (key nonce plaintext : Bytes)
      → All IsByte plaintext
      → All IsByte (gcm.seal key nonce plaintext)

abbrev pub default_sym_key : String
default_sym_key = "popl4190LKOI4862"

module _ (gcm : Gcm) where
  abbrev sealed : Bytes → Bytes → Result Bytes → Result Bytes
  sealed plaintext key (err e) = err e
  sealed plaintext key (ok nonce) = ok (nonce ++ gcm.seal key nonce plaintext)

  abbrev encrypt_with : ℕ → Bytes → Bytes → Option String → Result Bytes
  encrypt_with n plaintext key (some e) = err e
  encrypt_with n plaintext key none = sealed plaintext key (gcm.read_random n gcm.nonce_size)

  unfoldable pub encrypt : ℕ → Bytes → Bytes → Result Bytes
  encrypt n plaintext key = encrypt_with n plaintext key (gcm.new_cipher key)

  abbrev decrypt_with : Bytes → Bytes → Option String → Result Bytes
  decrypt_with ciphertext key (some e) = err e
  decrypt_with ciphertext key none =
      if ltb (length ciphertext) gcm.nonce_size
      then err "ciphertext too short"
      else gcm.open_sealed key (take gcm.nonce_size ciphertext) (drop gcm.nonce_size ciphertext)

  unfoldable pub decrypt : Bytes → Bytes → Result Bytes
  decrypt ciphertext key = decrypt_with ciphertext key (gcm.new_cipher key)

  -- The `DefaultSalt` of the package's own AES object.
  unfoldable pub encrypt_with_default_key : ℕ → Bytes → Result Bytes
  unfolding encrypt ascii
  encrypt_with_default_key n plaintext = encrypt n plaintext (ascii default_sym_key)

  unfoldable pub decrypt_with_default_key : Bytes → Result Bytes
  unfolding decrypt ascii
  decrypt_with_default_key ciphertext = decrypt ciphertext (ascii default_sym_key)

  abbrev printed : Result Bytes → Result Bytes
  printed (err e) = err e
  printed (ok bytes) = ok (Base64.encode bytes)

  unfoldable pub encrypt_with_base64 : ℕ → Bytes → Result Bytes
  unfolding encrypt_with_default_key Base64.encode
  encrypt_with_base64 n str = printed (encrypt_with_default_key n str)

  abbrev decrypt_decoded : Result Bytes → Result Bytes
  decrypt_decoded (err e) = err e
  decrypt_decoded (ok bytes) = decrypt_with_default_key bytes

  unfoldable pub decrypt_with_base64 : Bytes → Result Bytes
  unfolding decrypt_with_default_key Base64.decode
  decrypt_with_base64 str = decrypt_decoded (Base64.decode str)

take-append : (xs ys : Bytes) → take (length xs) (xs ++ ys) ≡ xs
take-append [] ys = refl
take-append (x ∷ xs) ys = ap (λ t. x ∷ t) (take-append xs ys)

drop-append : (xs ys : Bytes) → drop (length xs) (xs ++ ys) ≡ ys
drop-append [] ys = refl
drop-append (x ∷ xs) ys = drop-append xs ys

module _ (gcm : Gcm) (lawful : IsGcm gcm) where
  sealed_result :
      (plaintext key bytes : Bytes) (nonce : Result Bytes)
      → sealed gcm plaintext key nonce ≡ ok bytes
      → (n : Bytes) × (nonce ≡ ok n) × (bytes ≡ n ++ gcm.seal key n plaintext)
  sealed_result plaintext key bytes (err e) h = cc
  sealed_result plaintext key bytes (ok n) h = (n, refl, cc)

  decrypt-encrypt :
      (n : ℕ) (plaintext key ciphertext : Bytes)
      → All IsByte plaintext
      → length key ≡ 16
      → encrypt gcm n plaintext key ≡ ok ciphertext
      → (decrypt gcm ciphertext key ≡ ok plaintext) × All IsByte ciphertext
  unfolding encrypt decrypt
  decrypt-encrypt n plaintext key ciphertext b size h =
      let (nonce, drawn, e) =
        sealed_result plaintext key ciphertext (gcm.read_random n gcm.nonce_size)
          (rw (lawful.accepts key size) at h) in
      let size' = lawful.nonce n gcm.nonce_size nonce drawn in
      let long : ltb (length ciphertext) gcm.nonce_size ≡ false =
        ground (arith, length-append nonce (gcm.seal key nonce plaintext), ap length e) in
      let opened : gcm.open_sealed key (take gcm.nonce_size ciphertext)
            (drop gcm.nonce_size ciphertext)
          ≡ ok plaintext =
        rw (e, ← size', take-append, drop-append) (lawful.opens key nonce plaintext b size') in
      (
        rw (lawful.accepts key size, long) opened,
        rw e (
            All-append IsByte nonce (gcm.seal key nonce plaintext)
              (lawful.random_bytes n gcm.nonce_size nonce drawn)
              (lawful.sealed_bytes key nonce plaintext b)),
      )

  printed_result :
      (x : Result Bytes) (printed_bytes : Bytes)
      → printed gcm x ≡ ok printed_bytes
      → (bytes : Bytes) × (x ≡ ok bytes) × (printed_bytes ≡ Base64.encode bytes)
  printed_result (err e) printed_bytes h = cc
  printed_result (ok bytes) printed_bytes h = (bytes, refl, cc)

  -- What is encrypted with the default key and printed in base 64, with any random bytes, is
  -- decrypted to the text that it was made of.
  pub decrypt_with_base64-encrypt_with_base64 :
      (n : ℕ) (str encrypted : Bytes)
      → All IsByte str
      → encrypt_with_base64 gcm n str ≡ ok encrypted
      → decrypt_with_base64 gcm encrypted ≡ ok str
  unfolding encrypt_with_base64 decrypt_with_base64 encrypt_with_default_key
      decrypt_with_default_key ascii
  decrypt_with_base64-encrypt_with_base64 n str encrypted b h =
      let (bytes, e, p) = printed_result (encrypt_with_default_key gcm n str) encrypted h in
      let (d, all) = decrypt-encrypt n str (ascii default_sym_key) bytes b (omega arith) e in
      rw (p, decode-encode bytes all) d
