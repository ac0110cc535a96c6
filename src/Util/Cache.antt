-- ===== src/Util/Cache.antt =====
-- src/util/ttlcache.go and src/util/cache-item.go: a map whose items expire. A moment is a number of
-- nanoseconds. Each function below is what the code does under one lock, except `get`, which is
-- composed of its two halves, and `sweep`, which takes the lock anew for each key.
pub mod Expiry
pub mod Races
use pulsar_beam.Prelude.{
  ℕ, ◌+◌, String, Bool, false, Option, none, some, List, [], ◌∷◌, map, length, ltb, if◌then◌else◌,
}
use pulsar_beam.Prelude.Int.{ℤ, pos, pos_part, ltb_ℤ, is_zero}
use pulsar_beam.Prelude.Maps.{Map, lookup, insert, delete}

pub record Item (V : Type 0) : Type 0 where
  pub key : String
  pub value : V
  pub ttl : ℤ
  pub expire_at : ℕ

pub record Cache (V : Type 0) : Type 0 where
  pub option_ttl : ℤ
  pub items : Map (Item V)
  -- the calls of `ExpireCallback`, the last one first
  pub callbacks : List (String × V)

module _ {V : Type 0} where
  unfoldable pub touch : ℕ → Item V → Item V
  touch now item =
      if ltb_ℤ (pos 0) item.ttl then record item { expire_at = now + pos_part item.ttl } else item

  unfoldable pub expired : ℕ → Item V → Bool
  expired now item = if ltb_ℤ (pos 0) item.ttl then ltb item.expire_at now else false

  unfoldable pub new_item : ℕ → String → V → ℤ → Item V
  unfolding touch
  new_item now key object ttl =
      touch now (record { key = key; value = object; ttl = ttl; expire_at = 0 })

  unfoldable pub new_cache : ℤ → Cache V
  new_cache ttl = record { option_ttl = ttl; items = []; callbacks = [] }

  -- `c.opt.ExpireCallback(key, item.value)` and `delete(c.items, key)`.
  abbrev pub drop_item : String → Item V → Cache V → Cache V
  drop_item key item c = record c {
    items = delete key c.items;
    callbacks = (key, item.value) ∷ c.callbacks;
  }

  -- What `Get` does with the item that it has read, after it has given the lock back.
  unfoldable pub get_finish : ℕ → String → Option (Item V) → Cache V → Option V × Cache V
  unfolding expired touch
  get_finish now key none c = (none, c)
  get_finish now key (some item) c =
      if expired now item
      then (none, drop_item key item c)
      else if ltb_ℤ item.ttl (pos 0)
      then (some item.value, c)
      else (some item.value, record c { items = insert key (touch now item) c.items })

  unfoldable pub get : ℕ → String → Cache V → Option V × Cache V
  unfolding get_finish lookup
  get now key c = get_finish now key (lookup key c.items) c

  unfoldable pub set_with_ttl : ℕ → String → V → ℤ → Cache V → Cache V
  unfolding new_item
  set_with_ttl now key object ttl c =
      let ttl' = if is_zero ttl then c.option_ttl else ttl in
      record c { items = insert key (new_item now key object ttl') c.items }

  unfoldable pub set : ℕ → String → V → Cache V → Cache V
  unfolding set_with_ttl
  set now key object c = set_with_ttl now key object (pos 0) c

  abbrev delete_found : String → Option (Item V) → Cache V → Cache V
  delete_found key none c = c
  delete_found key (some item) c = drop_item key item c

  unfoldable pub delete_key : String → Cache V → Cache V
  unfolding lookup
  delete_key key c = delete_found key (lookup key c.items) c

  unfoldable pub count : Cache V → ℕ
  count c = length c.items

  abbrev pub sweep_found : ℕ → String → Option (Item V) → Cache V → Cache V
  sweep_found now key none c = c
  sweep_found now key (some item) c = if expired now item then drop_item key item c else c

  -- The body of the loop of `eventLoop` over the keys.
  unfoldable pub sweep_key : ℕ → String → Cache V → Cache V
  unfolding expired lookup
  sweep_key now key c = sweep_found now key (lookup key c.items) c

  unfoldable pub sweep_keys : ℕ → List String → Cache V → Cache V
  unfolding sweep_key
  sweep_keys now [] c = c
  sweep_keys now (key ∷ keys) c = sweep_keys now keys (sweep_key now key c)

  -- A tick of `eventLoop`.
  unfoldable pub sweep : ℕ → Cache V → Cache V
  unfolding sweep_keys
  sweep now c = sweep_keys now (map (λ entry. entry.0) c.items) c
