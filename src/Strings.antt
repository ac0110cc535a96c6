-- ===== src/Strings.antt =====
-- The functions of Go's `strings` package that the program calls, on texts of code points.
-- A separator is one character wherever the program splits.
pub mod Splitting
pub mod Prefixes
pub mod Decimal
pub mod Lengths
use Prim.Native.String.{len}
use pulsar_beam.Prelude.{
  ℕ, zero, suc, ◌-◌, String, Char, code, Bool, true, false, ◌&&◌, ◌||◌, Option, none, some, List,
  [], ◌∷◌, ltb, leb, nat_eq, if◌then◌else◌, ◌==◌,
}

-- Go's `s + t`.
infixr 65 ◌<>◌
abbrev pub ◌<>◌ : String → String → String
String.[] <> t = t
(String.◌∷◌ c s) <> t = String.◌∷◌ c (s <> t)

abbrev pub same_char : Char → Char → Bool
same_char c d = nat_eq (code c) (code d)

-- `unicode.IsSpace`.
unfoldable pub is_space : Char → Bool
is_space c =
    let n = code c in
    (leb 9 n && leb n 13)
    || nat_eq n 32
    || nat_eq n 0x85
    || nat_eq n 0xa0
    || nat_eq n 0x1680
    || (leb 0x2000 n && leb n 0x200a)
    || nat_eq n 0x2028
    || nat_eq n 0x2029
    || nat_eq n 0x202f
    || nat_eq n 0x205f
    || nat_eq n 0x3000

unfoldable pub trim_left : String → String
unfolding is_space
trim_left String.[] = String.[]
trim_left (String.◌∷◌ c s) = if is_space c then trim_left s else String.◌∷◌ c s

-- A space is dropped where nothing but spaces follows.
abbrev keep_unless_last : Char → String → String
keep_unless_last c String.[] = if is_space c then String.[] else String.◌∷◌ c String.[]
keep_unless_last c (String.◌∷◌ d s) = String.◌∷◌ c (String.◌∷◌ d s)

unfoldable pub trim_right : String → String
unfolding is_space
trim_right String.[] = String.[]
trim_right (String.◌∷◌ c s) = keep_unless_last c (trim_right s)

-- `strings.TrimSpace`.
unfoldable pub trim_space : String → String
unfolding trim_left trim_right
trim_space s = trim_left (trim_right s)

-- What is left of `s` behind the prefix, if it has it.
unfoldable pub strip_prefix : String → String → Option String
strip_prefix s String.[] = some s
strip_prefix String.[] (String.◌∷◌ d t) = none
strip_prefix (String.◌∷◌ c s) (String.◌∷◌ d t) = if same_char c d then strip_prefix s t else none

-- `strings.HasPrefix`.
unfoldable pub has_prefix : String → String → Bool
unfolding strip_prefix
has_prefix s p = elim (strip_prefix s p) [ none ↦ false | some _ ↦ true ]

-- `strings.Replace(s, old, new, 1)`.
unfoldable pub replace_first : String → String → String → String
unfolding strip_prefix
replace_first String.[] old new = elim (strip_prefix "" old) [ none ↦ "" | some r ↦ new <> r ]
replace_first (String.◌∷◌ c s) old new = elim (strip_prefix (String.◌∷◌ c s) old) [
  | none ↦ String.◌∷◌ c (replace_first s old new)
  | some r ↦ new <> r
]

abbrev push_head : Char → List String → List String
push_head c [] = String.◌∷◌ c String.[] ∷ []
push_head c (p ∷ ps) = String.◌∷◌ c p ∷ ps

-- `strings.Split(s, sep)`.
unfoldable pub split : String → Char → List String
split String.[] sep = "" ∷ []
split (String.◌∷◌ c s) sep =
    let rest = split s sep in if same_char c sep then "" ∷ rest else push_head c rest

-- `strings.Join(parts, sep)`.
unfoldable pub join : List String → Char → String
join [] sep = ""
join (p ∷ []) sep = p
join (p ∷ q ∷ ps) sep = p <> String.◌∷◌ sep (join (q ∷ ps) sep)

-- The character at a place, or `d` behind the end.
abbrev pub nth_char : String → ℕ → Char → Char
nth_char String.[] n d = d
nth_char (String.◌∷◌ c s) zero d = c
nth_char (String.◌∷◌ c s) (suc n) d = nth_char s n d

-- `unicode.ToLower` where the result is an ASCII letter: the capitals, the dotted capital I and the
-- Kelvin sign. Other characters, which no constant of the program holds, are left as they are.
unfoldable pub lower_char : Char → Char
lower_char c =
    let n = code c in
    if leb b'A' n && leb n b'Z'
    then nth_char "abcdefghijklmnopqrstuvwxyz" (n - b'A') c
    else if nat_eq n 0x130
    then "i"
    else if nat_eq n 0x212a
    then "k"
    else c

-- `strings.ToLower`, for a comparison with an ASCII constant.
unfoldable pub to_lower : String → String
unfolding lower_char
to_lower String.[] = String.[]
to_lower (String.◌∷◌ c s) = String.◌∷◌ (lower_char c) (to_lower s)
