-- ===== src/Util/Cache/Races.antt =====
-- `Cache.Get` gives its lock back between reading an item and renewing it.
use pulsar_beam.Prelude.{ℕ, String, false, some, ◌∷◌, ◌≡◌, refl, eq_refl}
use pulsar_beam.Prelude.Int.{pos, ltb_ℤ}
use pulsar_beam.Prelude.Maps.{lookup, lookup-insert}
use pulsar_beam.Util.Cache.{Item, Cache, touch, expired, get_finish, delete_key}

module _ {V : Type 0} where
  -- If `Get` has read an item that is not expired and may be renewed, and the key is deleted before
  -- it takes the lock again, then the item has been given to the expiry callback, and yet it is
  -- what `Get` returns and what the cache holds under the key afterwards.
  pub get-delete_race :
      (now : ℕ) (key : String) (item : Item V) (c : Cache V)
      → lookup key c.items ≡ some item
      → expired now item ≡ false
      → ltb_ℤ item.ttl (pos 0) ≡ false
      → ((delete_key key c).callbacks ≡ (key, item.value) ∷ c.callbacks)
        × ((get_finish now key (some item) (delete_key key c)).0 ≡ some item.value)
        × (lookup key (get_finish now key (some item) (delete_key key c)).1.items
            ≡ some (touch now item))
  unfolding get_finish delete_key
  get-delete_race now key item c h e t =
      rw h (rw e (rw t (refl, refl, rw (lookup-insert, eq_refl) refl)))
