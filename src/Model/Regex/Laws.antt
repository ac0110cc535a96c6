-- ===== src/Model/Regex/Laws.antt =====
-- The matcher decides the language of the pattern.
use text.Mathlib.TextLemmas.{nil≢cons, head-eq_of_cons-eq, tail-eq_of_cons-eq}
use pulsar_beam.Prelude.{
  String, Char, true, ◌≡◌, ◌↔◌, ◌⊎◌, inl, inr, refl, sym, ap, ◌∙◌, arith, Bool-cases,
}
use pulsar_beam.Strings.{◌<>◌}
use pulsar_beam.Model.Regex.{
  Regex, empty, eps, set, seq, alt, star, nullable, derive, match_string, Matches, an_eps, a_char,
  a_seq, on_left, on_right, stop, more,
}

nullable-Matches : (r : Regex) → nullable r ≡ true → Matches r ""
unfolding nullable
nullable-Matches empty h = cc
nullable-Matches eps h = an_eps refl
nullable-Matches (set p) h = cc
nullable-Matches (seq r q) h =
    a_seq "" "" refl (nullable-Matches r (ground arith)) (nullable-Matches q (ground arith))
nullable-Matches (alt r q) h = elim (Bool-cases (nullable r)) [
  | inl e ↦ on_left (nullable-Matches r e)
  | inr e ↦ on_right (nullable-Matches q (ground arith))
]
nullable-Matches (star r) h = stop refl

append-nil_parts : (t u : String) → "" ≡ t <> u → (t ≡ "") × (u ≡ "")
append-nil_parts String.[] u e = (refl, sym e)
append-nil_parts (String.◌∷◌ c t) u e = absurd (nil≢cons e)

Matches-nullable : (r : Regex) (s : String) → s ≡ "" → Matches r s → nullable r ≡ true
unfolding nullable
Matches-nullable empty s e m = elim m [ ]
Matches-nullable eps s e (an_eps _) = refl
Matches-nullable (set p) s e (a_char c e' _) = absurd (nil≢cons (sym e ∙ e'))
Matches-nullable (seq r q) s e (a_seq t u e' m n) =
    let (et, eu) = append-nil_parts t u (sym e ∙ e') in
    ground (arith, Matches-nullable r t et m, Matches-nullable q u eu n)
Matches-nullable (alt r q) s e (on_left m) = ground (arith, Matches-nullable r s e m)
Matches-nullable (alt r q) s e (on_right m) = ground (arith, Matches-nullable q s e m)
Matches-nullable (star r) s e m = refl

-- Inversion, one lemma for each form.
Matches-eps : {s : String} → Matches eps s → s ≡ ""
Matches-eps (an_eps e) = e

Matches-empty : {s : String} → Matches empty s → ⊥
Matches-empty m = elim m [ ]

Matches-alt : {r q : Regex} {s : String} → Matches (alt r q) s → Matches r s ⊎ Matches q s
Matches-alt (on_left m) = inl m
Matches-alt (on_right m) = inr m

Matches-seq :
    {r q : Regex} {s : String}
    → Matches (seq r q) s
    → (t : String) × (u : String) × (s ≡ t <> u) × Matches r t × Matches q u
Matches-seq (a_seq t u e m n) = (t, u, e, m, n)

-- A match of the derivative is a match of the rest.
derive-Matches :
    (r : Regex) (c : Char) (s : String) → Matches (derive r c) s → Matches r (String.◌∷◌ c s)
unfolding derive
derive-Matches empty c s m = absurd (Matches-empty m)
derive-Matches eps c s m = absurd (Matches-empty m)
derive-Matches (set p) c s m = elim (Bool-cases (p c)) [
  | inl e ↦ a_char c (ap (String.◌∷◌ c) (Matches-eps (rw e at m))) e
  | inr e ↦ absurd (Matches-empty (rw e at m))
]
derive-Matches (seq r q) c s m = elim (Bool-cases (nullable r)) [
  | inl e ↦ elim (Matches-alt (rw e at m)) [
    | inl m' ↦
        let (t, u, e', mr, mq) = Matches-seq m' in
        a_seq (String.◌∷◌ c t) u (ap (String.◌∷◌ c) e') (derive-Matches r c t mr) mq
    | inr n ↦ a_seq "" (String.◌∷◌ c s) refl (nullable-Matches r e) (derive-Matches q c s n)
  ]
  | inr e ↦
      let (t, u, e', mr, mq) = Matches-seq (rw e at m) in
      a_seq (String.◌∷◌ c t) u (ap (String.◌∷◌ c) e') (derive-Matches r c t mr) mq
]
derive-Matches (alt r q) c s m = elim (Matches-alt m) [
  | inl m' ↦ on_left (derive-Matches r c s m')
  | inr m' ↦ on_right (derive-Matches q c s m')
]
derive-Matches (star r) c s m =
    let (t, u, e, mr, ms) = Matches-seq m in
    more (String.◌∷◌ c t) u (ap (String.◌∷◌ c) e) (derive-Matches r c t mr) ms

-- A text that begins with `c`, cut in two: the cut is at the front, or behind `c`.
cons-append_parts :
    (c : Char) (s t u : String)
    → String.◌∷◌ c s ≡ t <> u
    → ((t ≡ "") × (u ≡ String.◌∷◌ c s)) ⊎ ((t' : String) × (t ≡ String.◌∷◌ c t') × (s ≡ t' <> u))
cons-append_parts c s String.[] u e = inl (refl, sym e)
cons-append_parts c s (String.◌∷◌ d t) u e =
    inr (t, rw (head-eq_of_cons-eq e), tail-eq_of_cons-eq e)

Matches-derive :
    (r : Regex) (c : Char) (s w : String)
    → w ≡ String.◌∷◌ c s
    → Matches r w
    → Matches (derive r c) s
unfolding derive
Matches-derive empty c s w e m = elim m [ ]
Matches-derive eps c s w e (an_eps e') = absurd (nil≢cons (sym e' ∙ e))
Matches-derive (set p) c s w e (a_char d e' h) =
    let same : d ≡ c = head-eq_of_cons-eq (sym e' ∙ e) in
    rw (← same, h) (an_eps (sym (tail-eq_of_cons-eq (sym e' ∙ e))))
Matches-derive (seq r q) c s w e (a_seq t u e' m n) =
    elim (cons-append_parts c s t u (sym e ∙ e')) [
      | inl (et, eu) ↦ rw (Matches-nullable r t et m) (on_right (Matches-derive q c s u eu n))
      | inr (t', et, es) ↦ elim (Bool-cases (nullable r)) [
        | inl k ↦ rw k (on_left (a_seq t' u es (Matches-derive r c t' t et m) n))
        | inr k ↦ rw k (a_seq t' u es (Matches-derive r c t' t et m) n)
      ]
    ]
Matches-derive (alt r q) c s w e (on_left m) = on_left (Matches-derive r c s w e m)
Matches-derive (alt r q) c s w e (on_right m) = on_right (Matches-derive q c s w e m)
Matches-derive (star r) c s w e (stop e') = absurd (nil≢cons (sym e' ∙ e))
Matches-derive (star r) c s w e (more t u e' m n) = elim (cons-append_parts c s t u (sym e ∙ e')) [
  | inl (et, eu) ↦ Matches-derive (star r) c s u eu n
  | inr (t', et, es) ↦ a_seq t' u es (Matches-derive r c t' t et m) n
]

-- The matcher decides the language of the pattern.
pub match_string-eq-true_iff : (r : Regex) (s : String) → (match_string r s ≡ true) ↔ Matches r s
unfolding match_string
match_string-eq-true_iff r String.[] = (nullable-Matches r, Matches-nullable r "" refl)
match_string-eq-true_iff r (String.◌∷◌ c s) =
    let (to, from) = match_string-eq-true_iff (derive r c) s in
    (λ h. derive-Matches r c s (to h), λ m. from (Matches-derive r c s (String.◌∷◌ c s) refl m))
