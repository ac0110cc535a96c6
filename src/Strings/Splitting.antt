-- ===== src/Strings/Splitting.antt =====
-- `Split` and `Join` undo one another.
use text.Mathlib.TextEquality.{Char-path}
use pulsar_beam.Prelude.{
  List, [], inl, inr, Bool-cases, String, Char, ◌≡◌, refl, [], ◌∷◌, arith, true, false, ◌++◌, ◌⊎◌,
  ap, ◌∙◌,
}
use pulsar_beam.Strings.{◌<>◌, same_char, split, join, push_head}

-- The separator does not occur.
abbrev pub Lacks : Char → String → Type 0
Lacks sep String.[] = Unit
Lacks sep (String.◌∷◌ c s) = (same_char c sep ≡ false) × Lacks sep s

pub same_char-eq : (c d : Char) → same_char c d ≡ true → c ≡ d
same_char-eq c d h = Char-path c d (ground arith)

pub split-append :
    (sep : Char) (t s : String) → Lacks sep t → split (t <> String.◌∷◌ sep s) sep ≡ t ∷ split s sep
unfolding split
split-append sep String.[] s h = ground arith
split-append sep (String.◌∷◌ c t) s (hc, h) = rw (hc, split-append sep t s h)

pub split_lacking : (sep : Char) (t : String) → Lacks sep t → split t sep ≡ t ∷ []
unfolding split
split_lacking sep String.[] h = refl
split_lacking sep (String.◌∷◌ c t) (hc, h) = rw (hc, split_lacking sep t h)

-- A split has a first part.
pub split-ne-nil :
    (s : String) (sep : Char) → (p : String) × (ps : List String) × (split s sep ≡ p ∷ ps)
unfolding split
split-ne-nil String.[] sep = ("", [], refl)
split-ne-nil (String.◌∷◌ c s) sep =
    let (p, ps, e) = split-ne-nil s sep in
    elim (Bool-cases (same_char c sep)) [
      | inl h ↦ ("", split s sep, rw h)
      | inr h ↦ (String.◌∷◌ c p, ps, rw (h, e))
    ]

split-push_head :
    (c sep : Char) (s : String) (x : String)
    → push_head c (split s sep ++ x ∷ []) ≡ push_head c (split s sep) ++ x ∷ []
split-push_head c sep s x = let (p, ps, e) = split-ne-nil s sep in rw e

-- What follows the last separator is the last part.
pub split-append_last :
    (sep : Char) (s t : String)
    → Lacks sep t
    → split (s <> String.◌∷◌ sep t) sep ≡ split s sep ++ t ∷ []
unfolding split
split-append_last sep String.[] t h = rw (split_lacking sep t h) (ground arith)
split-append_last sep (String.◌∷◌ c s) t h = elim (Bool-cases (same_char c sep)) [
  | inl e ↦ rw (e, split-append_last sep s t h)
  | inr e ↦ rw (e, split-append_last sep s t h) (split-push_head c sep s t)
]

-- A text has no separator, or a last one.
pub last_separator :
    (sep : Char) (s : String)
    → Lacks sep s ⊎ ((r : String) × (t : String) × Lacks sep t × (s ≡ r <> String.◌∷◌ sep t))
last_separator sep String.[] = inl tt
last_separator sep (String.◌∷◌ c s) = elim (last_separator sep s) [
  | inr (r, t, h, e) ↦ inr (String.◌∷◌ c r, t, h, ap (String.◌∷◌ c) e)
  | inl h ↦ elim (Bool-cases (same_char c sep)) [
    | inl k ↦ inr ("", s, h, ap (λ d. String.◌∷◌ d s) (same_char-eq c sep k))
    | inr k ↦ inl (k, h)
  ]
]

join-push_head :
    (c sep : Char) (p : String) (ps : List String)
    → join (push_head c (p ∷ ps)) sep ≡ String.◌∷◌ c (join (p ∷ ps) sep)
unfolding join
join-push_head c sep p [] = refl
join-push_head c sep p (q ∷ ps) = refl

join-split_cons :
    (c sep : Char) (s : String)
    → join (split s sep) sep ≡ s
    → join (split (String.◌∷◌ c s) sep) sep ≡ String.◌∷◌ c s
unfolding split
join-split_cons c sep s ih =
    let (p, ps, e) = split-ne-nil s sep in
    elim (Bool-cases (same_char c sep)) [
      | inl h ↦ rw (h, e) (unfold join in cc (same_char-eq c sep h, rw e at ih))
      | inr h ↦ rw (h, e) (join-push_head c sep p ps ∙ ap (String.◌∷◌ c) (rw e at ih))
    ]

-- Joining the parts of a split gives back the text.
pub join-split : (s : String) (sep : Char) → join (split s sep) sep ≡ s
join-split String.[] sep = unfold join split in refl
join-split (String.◌∷◌ c s) sep = join-split_cons c sep s (join-split s sep)
