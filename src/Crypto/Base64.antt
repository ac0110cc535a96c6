-- ===== src/Crypto/Base64.antt =====
-- Go's `encoding/base64.StdEncoding`, which the tokens of src/icrypto/util.go go through.
use pulsar_beam.Prelude.{
  ℕ, ◌+◌, ◌-◌, ◌*◌, ◌/◌, ◌<◌, false, ◌&&◌, ◌||◌, Option, none, some, [], ◌∷◌, ltb, leb, nat_eq,
  if◌then◌else◌, ◌≡◌, refl, ap, Result, ok, err, arith, All,
}
use Prim.Native.Nat.{◌%◌}
use pulsar_beam.Crypto.{Bytes}

abbrev pub IsByte : ℕ → Type 0
IsByte b = b < 256

abbrev pub digit : ℕ → ℕ
digit n =
    if ltb n 26
    then 65 + n
    else if ltb n 52
    then 71 + n
    else if ltb n 62
    then n - 4
    else if nat_eq n 62
    then 43
    else 47

abbrev pub value : ℕ → Option ℕ
value c =
    if leb 65 c && leb c 90
    then some (c - 65)
    else if leb 97 c && leb c 122
    then some (c - 71)
    else if leb 48 c && leb c 57
    then some (c + 4)
    else if nat_eq c 43
    then some 62
    else if nat_eq c 47
    then some 63
    else none

-- Three bytes as four digits, and the shorter last groups with `=`.
unfoldable pub encode : Bytes → Bytes
encode [] = []
encode (a ∷ []) = digit (a / 4) ∷ digit (a % 4 * 16) ∷ 61 ∷ 61 ∷ []
encode (a ∷ b ∷ []) = digit (a / 4) ∷ digit (a % 4 * 16 + b / 16) ∷ digit (b % 16 * 4) ∷ 61 ∷ []
encode (a ∷ b ∷ c ∷ rest) =
    digit (a / 4)
    ∷ digit (a % 4 * 16 + b / 16)
    ∷ digit (b % 16 * 4 + c / 64)
    ∷ digit (c % 64)
    ∷ encode rest

-- The position in the message of the error is left out.
abbrev pub corrupt : Result Bytes
corrupt = err "illegal base64 data"

abbrev one_byte : Option ℕ → Option ℕ → Bytes → Result Bytes
one_byte (some m) (some n) [] = ok ((m * 4 + n / 16) % 256 ∷ [])
one_byte (some m) (some n) (c ∷ rest) = corrupt
one_byte (some m) none rest = corrupt
one_byte none n rest = corrupt

abbrev two_bytes : Option ℕ → Option ℕ → Option ℕ → Bytes → Result Bytes
two_bytes (some m) (some n) (some o) [] = ok ((m * 4 + n / 16) % 256 ∷ (n * 16 + o / 4) % 256 ∷ [])
two_bytes (some m) (some n) (some o) (c ∷ rest) = corrupt
two_bytes (some m) (some n) none rest = corrupt
two_bytes (some m) none o rest = corrupt
two_bytes none n o rest = corrupt

abbrev three_bytes : Option ℕ → Option ℕ → Option ℕ → Option ℕ → Result Bytes → Result Bytes
three_bytes (some m) (some n) (some o) (some p) (ok bytes) =
    ok ((m * 4 + n / 16) % 256 ∷ (n * 16 + o / 4) % 256 ∷ (o * 64 + p) % 256 ∷ bytes)
three_bytes (some m) (some n) (some o) (some p) (err e) = err e
three_bytes (some m) (some n) (some o) none rest = corrupt
three_bytes (some m) (some n) none p rest = corrupt
three_bytes (some m) none o p rest = corrupt
three_bytes none n o p rest = corrupt

unfoldable pub decode_groups : Bytes → Result Bytes
decode_groups [] = ok []
decode_groups (w ∷ []) = corrupt
decode_groups (w ∷ x ∷ []) = corrupt
decode_groups (w ∷ x ∷ y ∷ []) = corrupt
decode_groups (w ∷ x ∷ y ∷ z ∷ rest) =
    let below = decode_groups rest in
    if nat_eq y 61
    then if nat_eq z 61 then one_byte (value w) (value x) rest else corrupt
    else if nat_eq z 61
    then two_bytes (value w) (value x) (value y) rest
    else three_bytes (value w) (value x) (value y) (value z) below

-- The decoder skips the ends of lines.
unfoldable pub strip_lines : Bytes → Bytes
strip_lines [] = []
strip_lines (c ∷ rest) =
    let below = strip_lines rest in if nat_eq c 10 || nat_eq c 13 then below else c ∷ below

unfoldable pub decode : Bytes → Result Bytes
unfolding decode_groups strip_lines
decode bytes = decode_groups (strip_lines bytes)

value-digit : (n : ℕ) → n < 64 → value (digit n) ≡ some n
value-digit n h = ground arith

-- A digit is not the padding.
digit-padding : (n : ℕ) → nat_eq (digit n) 61 ≡ false
digit-padding n = ground arith

strip_digit : (n : ℕ) (rest : Bytes) → strip_lines (digit n ∷ rest) ≡ digit n ∷ strip_lines rest
unfolding strip_lines
strip_digit n rest = ground arith

strip-encode : (bytes : Bytes) → strip_lines (encode bytes) ≡ encode bytes
unfolding encode strip_lines
strip-encode [] = refl
strip-encode (a ∷ []) = rw (strip_digit, strip_digit) refl
strip-encode (a ∷ b ∷ []) = rw (strip_digit, strip_digit, strip_digit) refl
strip-encode (a ∷ b ∷ c ∷ rest) =
    rw (strip_digit, strip_digit, strip_digit, strip_digit, strip-encode rest) refl

-- The groups of bits, put together again.
first_byte : (a b : ℕ) → a < 256 → b < 256 → (a / 4 * 4 + (a % 4 * 16 + b / 16) / 16) % 256 ≡ a
first_byte a b ha hb = omega arith

only_byte : (a : ℕ) → a < 256 → (a / 4 * 4 + a % 4 * 16 / 16) % 256 ≡ a
only_byte a h = omega arith

last_byte : (a b : ℕ) → a < 256 → b < 256 → ((a % 4 * 16 + b / 16) * 16 + b % 16 * 4 / 4) % 256 ≡ b
last_byte a b ha hb = omega arith

second_byte :
    (a b c : ℕ)
    → a < 256
    → b < 256
    → c < 256
    → ((a % 4 * 16 + b / 16) * 16 + (b % 16 * 4 + c / 64) / 4) % 256 ≡ b
second_byte a b c ha hb hc = omega arith

third_byte : (b c : ℕ) → b < 256 → c < 256 → ((b % 16 * 4 + c / 64) * 64 + c % 64) % 256 ≡ c
third_byte b c hb hc = omega arith

decode_groups-encode : (bytes : Bytes) → All IsByte bytes → decode_groups (encode bytes) ≡ ok bytes
unfolding encode decode_groups
decode_groups-encode [] _ = refl
decode_groups-encode (a ∷ []) (ha, _) =
    rw (value-digit (a / 4) (omega arith), value-digit (a % 4 * 16) (omega arith))
      (ap (λ b. ok (b ∷ [])) (only_byte a ha))
decode_groups-encode (a ∷ b ∷ []) (ha, (hb, _)) =
    rw
      (
        value-digit (a / 4) (omega arith),
        value-digit (a % 4 * 16 + b / 16) (omega arith),
        value-digit (b % 16 * 4) (omega arith),
        digit-padding (b % 16 * 4),
        first_byte a b ha hb,
        last_byte a b ha hb,
      )
      refl
decode_groups-encode (a ∷ b ∷ c ∷ rest) (ha, (hb, (hc, h))) =
    rw
      (
        value-digit (a / 4) (omega arith),
        value-digit (a % 4 * 16 + b / 16) (omega arith),
        value-digit (b % 16 * 4 + c / 64) (omega arith),
        value-digit (c % 64) (omega arith),
        digit-padding (b % 16 * 4 + c / 64),
        digit-padding (c % 64),
        decode_groups-encode rest h,
        first_byte a b ha hb,
        second_byte a b c ha hb hc,
        third_byte b c hb hc,
      )
      refl

pub decode-encode : (bytes : Bytes) → All IsByte bytes → decode (encode bytes) ≡ ok bytes
unfolding decode
decode-encode bytes h = rw (strip-encode bytes) (decode_groups-encode bytes h)
