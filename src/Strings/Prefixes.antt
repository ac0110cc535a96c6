-- ===== src/Strings/Prefixes.antt =====
-- Laws of `s + t`, prefixes and replacement.
use Prim.Native.String
use text.Mathlib.TextLemmas.{nil-append, cons-append, append_cancel_right}
use pulsar_beam.Prelude.{String, ◌≡◌, refl, sym, ap, ◌∙◌, some, arith}
use pulsar_beam.Strings.{◌<>◌, strip_prefix}

pub <>_assoc : (s t u : String) → (s <> t) <> u ≡ s <> t <> u
<>_assoc String.[] t u = refl
<>_assoc (String.◌∷◌ c s) t u = ap (String.◌∷◌ c) (<>_assoc s t u)

pub <>-nil : (s : String) → s <> "" ≡ s
<>-nil String.[] = refl
<>-nil (String.◌∷◌ c s) = ap (String.◌∷◌ c) (<>-nil s)

<>-eq-append : (s t : String) → s <> t ≡ String.◌++◌ s t
<>-eq-append String.[] t = sym (nil-append t)
<>-eq-append (String.◌∷◌ c s) t = ap (String.◌∷◌ c) (<>-eq-append s t) ∙ sym (cons-append c s t)

pub append-cancel_right : (s t u : String) → s <> u ≡ t <> u → s ≡ t
append-cancel_right s t u e =
    append_cancel_right s t u (sym (<>-eq-append s u) ∙ e ∙ <>-eq-append t u)

pub strip_prefix-append : (p s : String) → strip_prefix (p <> s) p ≡ some s
unfolding strip_prefix
strip_prefix-append String.[] s = refl
strip_prefix-append (String.◌∷◌ c p) s = ground (arith, strip_prefix-append p s)
