-- ===== src/Strings/Decimal.antt =====
-- Decimal numbers: the verb `%d`, and `strconv.Atoi`.
use Prim.Native.Nat.{◌%◌}
use pulsar_beam.Prelude.{
  ℕ, zero, suc, ◌+◌, ◌-◌, ◌*◌, ◌/◌, ◌^◌, String, Char, code, ◌&&◌, Option, none, some, ltb, leb,
  if◌then◌else◌, ◌==◌,
}
use pulsar_beam.Prelude.Int.{ℤ, pos, negsuc}
use pulsar_beam.Strings.{nth_char, same_char}

digit : ℕ → Char
digit n = nth_char "0123456789" n "0"

decimal_from : ℕ → ℕ → String → String
decimal_from zero n acc = acc
decimal_from (suc f) n acc =
    let longer = String.◌∷◌ (digit (n % 10)) acc in
    let rest = decimal_from f (n / 10) longer in if ltb n 10 then longer else rest

-- `%d` of a number below 10^20, hence of every `int64` that is not negative.
unfoldable pub decimal : ℕ → String
unfolding decimal_from digit
decimal n = decimal_from 20 n ""

digits : String → ℕ → Option ℕ
digits String.[] n = some n
digits (String.◌∷◌ c s) n =
    let d = code c in if leb b'0' d && leb d b'9' then digits s (n * 10 + (d - b'0')) else none

abbrev magnitude : String → Option ℕ
magnitude s = if s == "" then none else digits s 0

abbrev positive : Option ℕ → Option ℤ
positive none = none
positive (some n) = if ltb n (2 ^ 63) then some (pos n) else none

abbrev negative : Option ℕ → Option ℤ
negative none = none
negative (some zero) = some (pos 0)
negative (some (suc n)) = if ltb n (2 ^ 63) then some (negsuc n) else none

-- `strconv.Atoi`, where `none` stands for an error: no digits, another character, or a value that
-- does not fit an `int64`.
unfoldable pub atoi : String → Option ℤ
unfolding digits
atoi String.[] = none
atoi (String.◌∷◌ c s) =
    if same_char c "-"
    then negative (magnitude s)
    else if same_char c "+"
    then positive (magnitude s)
    else positive (magnitude (String.◌∷◌ c s))
