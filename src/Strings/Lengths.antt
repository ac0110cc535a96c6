-- ===== src/Strings/Lengths.antt =====
-- The length of a text in bytes.
use pulsar_beam.Strings.{◌<>◌}
use Prim.Native.String.{len}
use Prim.Native.String.len
use text.Mathlib.TextPositions.{len_utf8-pos}
use pulsar_beam.Prelude.{String, ◌≢◌, ◌≤◌, refl, arith, ◌≡◌, ◌+◌}

-- Only the empty text has no byte.
pub len-pos : (s : String) → s ≢ "" → 1 ≤ len s
len-pos String.[] h = absurd (h refl)
len-pos (String.◌∷◌ c s) h = let (k, e) = len_utf8-pos c in rw (len.cons c s, e) (omega arith)

pub len-<> : (s t : String) → len (s <> t) ≡ len s + len t
len-<> String.[] t = omega arith
len-<> (String.◌∷◌ c s) t = rw (len.cons c (s <> t), len.cons c s, len-<> s t) (omega arith)
