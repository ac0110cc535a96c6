-- ===== src/Tests/CacheTests.antt =====
-- The expiring cache of src/util at concrete inputs.
use pulsar_beam.Prelude.{ℕ, String, some, [], ◌∷◌, ◌≡◌, ◌↔◌, refl, ◌==◌, if◌then◌else◌}
use pulsar_beam.Prelude.Int.{pos}
use pulsar_beam.Prelude.Maps.{lookup, insert, delete}
use pulsar_beam.Util.Cache.{
  Item, Cache, touch, expired, new_item, get_finish, get, set_with_ttl, delete_key, sweep,
  sweep_keys, sweep_key,
}
use pulsar_beam.Util.Cache.Expiry.{
  live, renewed, value_of, effective_ttl, Lives, get_lem, get-set_iff, sweep-lookup,
}
use pulsar_beam.Util.Cache.Races.{get-delete_race}

abbrev item : String → ℕ → Item String
item key expire_at = record { key = key; value = key; ttl = pos 10; expire_at = expire_at }

abbrev two : Cache String
two = record {
  option_ttl = pos 10;
  items = ("a", item "a" 12) ∷ ("b", item "b" 30) ∷ [];
  callbacks = [];
}

open_cache : Unit {0}
unfolding get get_finish set_with_ttl new_item touch expired delete_key sweep sweep_keys sweep_key
    lookup insert delete live effective_ttl
open_cache = tt

sweep_test :
    sweep 20 two
    ≡ record { option_ttl = pos 10; items = ("b", item "b" 30) ∷ []; callbacks = ("a", "a") ∷ [] }
unfolding open_cache
sweep_test = refl

get_lem_test :
    ((get 20 "b" two).0 ≡ value_of (live 20 "b" two))
    × ((j : String)
        → lookup j (get 20 "b" two).1.items
          ≡ (if "b" == j then renewed 20 (live 20 "b" two) else lookup j two.items))
get_lem_test = get_lem 20 "b" two

get-set_iff_test :
    ((get 15 "c" (set_with_ttl 7 "c" "x" (pos 0) two)).0 ≡ some "x")
    ↔ Lives 7 (effective_ttl (pos 0) two) 15
get-set_iff_test = get-set_iff 7 15 "c" "x" (pos 0) two

sweep-lookup_test : lookup "b" (sweep 20 two).items ≡ some (item "b" 30)
unfolding open_cache
sweep-lookup_test = sweep-lookup 20 "b" two

get-delete_race_example :
    ((delete_key "b" two).callbacks ≡ ("b", "b") ∷ [])
    × ((get_finish 20 "b" (some (item "b" 30)) (delete_key "b" two)).0 ≡ some "b")
    × (lookup "b" (get_finish 20 "b" (some (item "b" 30)) (delete_key "b" two)).1.items
        ≡ some (item "b" 30))
unfolding open_cache
get-delete_race_example = get-delete_race 20 "b" (item "b" 30) two refl refl refl
