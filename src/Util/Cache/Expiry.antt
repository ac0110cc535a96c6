-- ===== src/Util/Cache/Expiry.antt =====
-- What the cache shows at a moment, and what its operations do to that.
use pulsar_beam.Prelude.{
  ℕ, ◌+◌, ◌≤◌, String, Bool, true, false, ◌||◌, Option, none, some, List, [], ◌∷◌, map, ltb,
  if◌then◌else◌, ◌==◌, ◌≡◌, refl, ◌↔◌, inl, inr, arith, eq_iff, eq_refl, Option-cases,
}
use pulsar_beam.Prelude.Int.{ℤ, pos, pos_part, ltb_ℤ, is_zero}
use pulsar_beam.Prelude.Maps.{Map, lookup, lookup-insert, lookup-delete}
use pulsar_beam.Util.Cache.{
  Item, Cache, touch, expired, new_item, get_finish, get, set_with_ttl, sweep_key, sweep_found,
  sweep_keys, sweep,
}

-- Until when an item that is set at `now` lives.
abbrev pub Lives : ℕ → ℤ → ℕ → Type 0
Lives now ttl later = ltb_ℤ (pos 0) ttl ≡ true → later ≤ now + pos_part ttl

abbrev listed : String → List String → Bool
listed j [] = false
listed j (key ∷ keys) = key == j || listed j keys

module _ {V : Type 0} where
  abbrev shown : ℕ → Option (Item V) → Option (Item V)
  shown now none = none
  shown now (some item) = if expired now item then none else some item

  -- The item under a key, unless it is expired.
  unfoldable pub live : ℕ → String → Cache V → Option (Item V)
  unfolding expired
  live now key c = shown now (lookup key c.items)

  abbrev pub value_of : Option (Item V) → Option V
  value_of none = none
  value_of (some item) = some item.value

  -- The items that `Get` leaves: it renews the one that it returns.
  abbrev pub renewed : ℕ → Option (Item V) → Option (Item V)
  renewed now none = none
  renewed now (some item) = some (touch now item)

  touch-expired :
      (now later : ℕ) (item : Item V)
      → expired later (touch now item)
        ≡ (if ltb_ℤ (pos 0) item.ttl then ltb (now + pos_part item.ttl) later else false)
  unfolding expired touch
  touch-expired now later item = ground arith

  get-live : (now : ℕ) (key : String) (c : Cache V) → (get now key c).0 ≡ value_of (live now key c)
  unfolding get get_finish live expired
  get-live now key c = ground arith

  get_finish-lookup :
      (now : ℕ) (key j : String) (found : Option (Item V)) (c : Cache V)
      → lookup key c.items ≡ found
      → lookup j (get_finish now key found c).1.items
        ≡ (if key == j then renewed now (shown now found) else lookup j c.items)
  unfolding get_finish expired touch
  get_finish-lookup now key j none c h = ground (arith, eq_iff key j)
  get_finish-lookup now key j (some item) c h = ground (
    arith,
    eq_iff key j,
    lookup-delete key j c.items,
    lookup-insert key j (touch now item) c.items,
  )

  -- `Get` returns the value of a live item, renews that item, drops an expired one, and changes
  -- nothing under another key.
  pub get_lem :
      (now : ℕ) (key : String) (c : Cache V)
      → ((get now key c).0 ≡ value_of (live now key c))
        × ((j : String)
            → lookup j (get now key c).1.items
              ≡ (if key == j then renewed now (live now key c) else lookup j c.items))
  unfolding get live
  get_lem now key c =
      (get-live now key c, λ j. get_finish-lookup now key j (lookup key c.items) c refl)

  unfoldable pub effective_ttl : ℤ → Cache V → ℤ
  effective_ttl ttl c = if is_zero ttl then c.option_ttl else ttl

  item-live :
      (now later : ℕ) (key : String) (object : V) (ttl : ℤ)
      → value_of (shown later (some (new_item now key object ttl))) ≡ some object
        ↔ Lives now ttl later
  unfolding new_item touch expired
  item-live now later key object ttl = (λ h. ground arith, λ h. ground arith)

  set-lookup :
      (now : ℕ) (key : String) (object : V) (ttl : ℤ) (c : Cache V)
      → lookup key (set_with_ttl now key object ttl c).items
        ≡ some (new_item now key object (effective_ttl ttl c))
  unfolding set_with_ttl effective_ttl
  set-lookup now key object ttl c = rw (lookup-insert, eq_refl) refl

  -- A value that is stored at `now`, with a lifetime or with the default one, is what a later `Get`
  -- of its key returns exactly as long as it lives: for ever without a positive lifetime.
  pub get-set_iff :
      (now later : ℕ) (key : String) (object : V) (ttl : ℤ) (c : Cache V)
      → (get later key (set_with_ttl now key object ttl c)).0 ≡ some object
        ↔ Lives now (effective_ttl ttl c) later
  unfolding live
  get-set_iff now later key object ttl c =
      rw (get-live later key (set_with_ttl now key object ttl c), set-lookup now key object ttl c)
        (item-live now later key object (effective_ttl ttl c))

  found-lookup :
      (now : ℕ) (key j : String) (found : Option (Item V)) (c : Cache V)
      → lookup key c.items ≡ found
      → lookup j (sweep_found now key found c).items
        ≡ (if key == j then shown now found else lookup j c.items)
  unfolding expired
  found-lookup now key j none c h = ground (arith, eq_iff key j)
  found-lookup now key j (some item) c h = ground (arith, eq_iff key j, lookup-delete key j c.items)

  sweep_key-lookup :
      (now : ℕ) (key j : String) (c : Cache V)
      → lookup j (sweep_key now key c).items ≡ (if key == j then live now j c else lookup j c.items)
  unfolding sweep_key live
  sweep_key-lookup now key j c =
      ground (arith, eq_iff key j, found-lookup now key j (lookup key c.items) c refl)

  lookup-listed :
      (j : String) (item : Item V) (m : Map (Item V))
      → lookup j m ≡ some item
      → listed j (map (λ entry. entry.0) m) ≡ true
  unfolding lookup
  lookup-listed j item [] h = cc
  lookup-listed j item ((key, i) ∷ m) h = ground (arith, lookup-listed j item m)

  shown_idem : (now : ℕ) (o : Option (Item V)) → shown now (shown now o) ≡ shown now o
  shown_idem now none = refl
  shown_idem now (some item) = ground arith

  sweep_keys-lookup :
      (now : ℕ) (keys : List String) (j : String) (c : Cache V)
      → lookup j (sweep_keys now keys c).items
        ≡ (if listed j keys then live now j c else lookup j c.items)
  unfolding sweep_keys live
  sweep_keys-lookup now [] j c = refl
  sweep_keys-lookup now (key ∷ keys) j c = ground (
    arith,
    sweep_keys-lookup now keys j (sweep_key now key c),
    sweep_key-lookup now key j c,
    shown_idem now (lookup j c.items),
  )

  -- A tick of the event loop leaves the live items and no others.
  pub sweep-lookup :
      (now : ℕ) (j : String) (c : Cache V) → lookup j (sweep now c).items ≡ live now j c
  unfolding sweep live
  sweep-lookup now j c = elim (Option-cases (lookup j c.items)) [
    | inl h ↦ rw (sweep_keys-lookup now (map (λ entry. entry.0) c.items) j c, h) (ground arith)
    | inr (item, h) ↦
        rw
          (
            sweep_keys-lookup now (map (λ entry. entry.0) c.items) j c,
            lookup-listed j item c.items h,
          )
          refl
  ]
