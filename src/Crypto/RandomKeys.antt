-- ===== src/Crypto/RandomKeys.antt =====
-- src/icrypto/util.go: the random keys of the subscriptions that are not to be resumed.
use pulsar_beam.Prelude.{
  ℕ, zero, suc, ◌<◌, String, Char, code, Bool, ◌&&◌, ◌||◌, true, Option, none, some, leb, ◌≡◌, refl,
  arith,
}

abbrev pub default_runes : String
default_runes = "0123456789abcdefghijklmnopqrstuvwxyzABCDEFGHIJKLMNOPQRSTUVWXYZ"

abbrev pub rune_count : String → ℕ
rune_count String.[] = 0
rune_count (String.◌∷◌ c s) = suc (rune_count s)

-- `defaultRunes[i]`; `none` is a panic.
abbrev pub rune_at : String → ℕ → Option Char
rune_at String.[] i = none
rune_at (String.◌∷◌ c s) zero = some c
rune_at (String.◌∷◌ c s) (suc i) = rune_at s i

abbrev before : Option Char → Option String → Option String
before (some c) (some s) = some (String.◌∷◌ c s)
before (some c) none = none
before none s = none

-- `intn` is `rand.Intn`, and its first argument the number of the call.
module _ (intn : ℕ → ℕ → ℕ) where
  unfoldable pub rand_key : ℕ → ℕ → Option String
  rand_key call zero = some String.[]
  rand_key call (suc n) =
      before (rune_at default_runes (intn call (rune_count default_runes))) (rand_key (suc call) n)

  unfoldable pub gen_topic_key : ℕ → Option String
  unfolding rand_key
  gen_topic_key call = rand_key call 24

abbrev pub is_alphanumeric : Char → Bool
is_alphanumeric c =
    let n = code c in (leb 48 n && leb n 57) || (leb 65 n && leb n 90) || (leb 97 n && leb n 122)

abbrev pub all_alphanumeric : String → Bool
all_alphanumeric String.[] = true
all_alphanumeric (String.◌∷◌ c s) = is_alphanumeric c && all_alphanumeric s

-- A key of so many characters, each of them a letter or a digit.
pub record IsKey (n : ℕ) (key : String) : Type 0 where
  pub size : rune_count key ≡ n
  pub characters : all_alphanumeric key ≡ true

rune_at-total :
    (s : String) (i : ℕ)
    → all_alphanumeric s ≡ true
    → i < rune_count s
    → (c : Char) × (rune_at s i ≡ some c) × (is_alphanumeric c ≡ true)
rune_at-total String.[] i a h = absurd (omega arith)
rune_at-total (String.◌∷◌ c s) zero a h = (c, refl, ground arith)
rune_at-total (String.◌∷◌ c s) (suc i) a h = rune_at-total s i (ground arith) (omega arith)

module _ (intn : ℕ → ℕ → ℕ) (bounded : (call n : ℕ) → 0 < n → intn call n < n) where
  IsKey-before :
      (c : Char) (n : ℕ) (s : String)
      → is_alphanumeric c ≡ true
      → IsKey n s
      → IsKey (suc n) (String.◌∷◌ c s)
  IsKey-before c n s a k = record {
    size = omega (arith, k.size);
    characters = rw (a, k.characters) refl;
  }

  -- A random key has the length that is asked for, and is of letters and digits only; the code never
  -- reads past the list of the runes.
  pub rand_key-IsKey :
      (call n : ℕ) → (key : String) × (rand_key intn call n ≡ some key) × IsKey n key
  unfolding rand_key
  rand_key-IsKey call zero = (String.[], refl, record { size = refl; characters = refl })
  rand_key-IsKey call (suc n) =
      let (c, found, a) =
        rune_at-total default_runes (intn call (rune_count default_runes)) refl
          (bounded call (rune_count default_runes) (omega arith)) in
      let (key, e, k) = rand_key-IsKey (suc call) n in
      (String.◌∷◌ c key, rw (found, e) refl, IsKey-before c n key a k)
