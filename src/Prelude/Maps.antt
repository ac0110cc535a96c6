-- ===== src/Prelude/Maps.antt =====
-- A Go `map[string]V` as an association list. The order of the list is the order in which a `range`
-- visits the keys; Go promises none, so no theorem may depend on a particular one.
use Prim.Native.String.{String}
use mathlib.Core.Path.{◌≡◌, refl}
use mathlib.Core.Option.{Option, none, some}
use mathlib.Core.List.{List, [], ◌∷◌}
use native.Mathlib.Omega.{arith}
use text.Mathlib.Text.{◌==◌}
use text.Mathlib.TextEquality.{eq_iff}
use pulsar_beam.Prelude.Tests.{if◌then◌else◌}

abbrev pub Map {ℓ} : Type ℓ → Type ℓ
Map V = List (String × V)

-- `delete(m, key)`.
unfoldable pub delete {ℓ} : {V : Type ℓ} → String → Map V → Map V
delete key [] = []
delete key ((name, value) ∷ rest) =
    let kept = delete key rest in if name == key then kept else (name, value) ∷ kept

-- `m[key] = value`.
unfoldable pub insert {ℓ} : {V : Type ℓ} → String → V → Map V → Map V
insert key value ((name, old) ∷ rest) =
    let below = insert key value rest in
    if name == key then (key, value) ∷ rest else (name, old) ∷ below
insert key value [] = (key, value) ∷ []

-- `value, ok := m[key]`.
unfoldable pub lookup {ℓ} : {V : Type ℓ} → String → Map V → Option V
lookup key ((name, value) ∷ rest) =
    let found = lookup key rest in if name == key then some value else found
lookup key [] = none

pub lookup-delete {ℓ} :
    {V : Type ℓ} (key other : String) (entries : Map V)
    → lookup other (delete key entries) ≡ (if key == other then none else lookup other entries)
unfolding lookup delete
lookup-delete key other [] = ground arith
lookup-delete key other ((name, value) ∷ rest) =
    ground
      (arith, lookup-delete key other rest, eq_iff name other, eq_iff key other, eq_iff name key)

pub lookup-insert {ℓ} :
    {V : Type ℓ} (key other : String) (value : V) (entries : Map V)
    → lookup other (insert key value entries)
      ≡ (if key == other then some value else lookup other entries)
unfolding lookup insert
lookup-insert key other value ((name, old) ∷ rest) = ground (
  arith,
  lookup-insert key other value rest,
  eq_iff name other,
  eq_iff key other,
  eq_iff name key,
)
lookup-insert key other value [] = refl

pub ruleset map_laws = (lookup-insert, lookup-delete)
