-- ===== src/Model/Regex.antt =====
-- `regexp.MatchString` for a pattern between `^` and `$`, by derivatives, and the language of a
-- pattern as a relation.
pub mod Laws
use pulsar_beam.Prelude.{
  ℕ, zero, suc, String, Char, Bool, true, false, ◌&&◌, ◌||◌, List, [], ◌∷◌, ◌≡◌, if◌then◌else◌,
}
use pulsar_beam.Strings.{◌<>◌, same_char}

pub data Regex : Type 0 where
  empty eps : Regex
  set : (Char → Bool) → Regex
  seq alt : Regex → Regex → Regex
  star : Regex → Regex

unfoldable pub nullable : Regex → Bool
nullable empty = false
nullable eps = true
nullable (set p) = false
nullable (seq r q) = nullable r && nullable q
nullable (alt r q) = nullable r || nullable q
nullable (star r) = true

-- What has to follow the character `c`.
unfoldable pub derive : Regex → Char → Regex
unfolding nullable
derive empty c = empty
derive eps c = empty
derive (set p) c = if p c then eps else empty
derive (seq r q) c =
    let here = seq (derive r c) q in
    let skipped = derive q c in if nullable r then alt here skipped else here
derive (alt r q) c = alt (derive r c) (derive q c)
derive (star r) c = seq (derive r c) (star r)

unfoldable pub match_string : Regex → String → Bool
unfolding derive
match_string r String.[] = nullable r
match_string r (String.◌∷◌ c s) = match_string (derive r c) s

abbrev pub optional : Regex → Regex
optional r = alt r eps

abbrev pub lit : String → Regex
lit String.[] = eps
lit (String.◌∷◌ c s) = seq (set (same_char c)) (lit s)

-- `r{0,n}`
abbrev pub up_to : ℕ → Regex → Regex
up_to zero r = eps
up_to (suc n) r = optional (seq r (up_to n r))

-- The text `s` belongs to the language of `r`.
pub data Matches : Regex → String → Type 0 where
  an_eps : {s : String} → s ≡ "" → Matches eps s
  a_char :
      {p : Char → Bool} {s : String} (c : Char)
      → s ≡ String.◌∷◌ c ""
      → p c ≡ true
      → Matches (set p) s
  a_seq :
      {r q : Regex} {s : String} (t u : String)
      → s ≡ t <> u
      → Matches r t
      → Matches q u
      → Matches (seq r q) s
  on_left : {r q : Regex} {s : String} → Matches r s → Matches (alt r q) s
  on_right : {r q : Regex} {s : String} → Matches q s → Matches (alt r q) s
  stop : {r : Regex} {s : String} → s ≡ "" → Matches (star r) s
  more :
      {r : Regex} {s : String} (t u : String)
      → s ≡ t <> u
      → Matches r t
      → Matches (star r) u
      → Matches (star r) s
