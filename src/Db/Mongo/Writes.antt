-- ===== src/Db/Mongo/Writes.antt =====
-- What `Create` and `Update` of src/db/mongo.go write, and what they leave behind an error.
use pulsar_beam.Prelude.{
  ℕ, String, ◌⊎◌, inl, inr, Bool, true, false, Option, none, some, List, [], ◌∷◌, ◌++◌, Result, ok,
  err, ◌≡◌, refl, if◌then◌else◌, ◌==◌, arith,
}
use pulsar_beam.Platform.{Platform}
use pulsar_beam.Model.Topic.{TopicConfig}
use pulsar_beam.Db.{get_key, stamped}
use pulsar_beam.Db.Mongo.{
  Collection, existing, changes_of, inserted, create_at, update_if, update_at, exists, create,
  update,
}
use pulsar_beam.Db.Mongo.Collections.{
  first, set_fields, set_first, or_else, IsCollection, first-append, first-set_first,
}

module _ {S : Type 0} (platform : Platform) (coll : Collection S)
    (docs : S → List TopicConfig) where
  -- A document has been stored under the key, behind those that may stand there.
  abbrev pub Created : ℕ → TopicConfig → S → S → String → Type 0
  Created now cfg s s' key =
      (get_key platform cfg ≡ ok key)
      × ((j : String)
          → first j (docs s')
            ≡ or_else (first j (docs s)) (if key == j then some (stamped key now cfg) else none))

  -- The token, tenant, notes, status, time and webhooks of the stored document have been set, and
  -- nothing else of it.
  abbrev pub Updated : ℕ → TopicConfig → TopicConfig → S → S → String → Type 0
  Updated now cfg old s s' key =
      (j : String)
      → first j (docs s')
        ≡ (if key == j then some (set_fields (changes_of now cfg) old) else first j (docs s))

  -- What an update has written.
  abbrev pub Wrote : ℕ → TopicConfig → S → S → String → Type 0
  Wrote now cfg s s' key =
      Created now cfg s s' key
      ⊎ ((old : TopicConfig) × (coll.find_one key s ≡ ok old) × Updated now cfg old s s' key)

module _ {S : Type 0} (platform : Platform) (coll : Collection S) (docs : S → List TopicConfig)
    {indexed : TopicConfig → Option String} (lawful : IsCollection coll docs indexed) where
  inserted_lem :
      (now : ℕ) (cfg : TopicConfig) (s s' : S) (key id : String) (x : Option String × S)
      → coll.insert_one (stamped key now cfg) s ≡ x
      → inserted coll key x ≡ (ok id, s')
      → (id ≡ key) × (docs s' ≡ docs s ++ (stamped key now cfg ∷ []))
  inserted_lem now cfg s s' key id (none, t) h e =
      let same : t ≡ s' = cc in (cc, rw same at ((lawful.inserted (stamped key now cfg) s t h).0))
  inserted_lem now cfg s s' key id (some e', t) h e = cc

  create_at_lem :
      (now : ℕ) (cfg : TopicConfig) (s s' : S) (id : String) (k : Result String)
      → create_at coll now cfg s k ≡ (ok id, s')
      → (k ≡ ok id) × (docs s' ≡ docs s ++ (stamped id now cfg ∷ []))
  create_at_lem now cfg s s' id (err e) h = cc
  create_at_lem now cfg s s' id (ok key) h =
      let (same, filed) =
        inserted_lem now cfg s s' key id (coll.insert_one (stamped key now cfg) s) refl h in
      (cc same, rw (← same) at filed)

  pub created_lem :
      (now : ℕ) (cfg : TopicConfig) (s s' : S) (id : String)
      → create coll platform now cfg s ≡ (ok id, s')
      → (get_key platform cfg ≡ ok id)
        × ((j : String)
            → first j (docs s')
              ≡ or_else (first j (docs s)) (if id == j then some (stamped id now cfg) else none))
  unfolding create
  created_lem now cfg s s' id h =
      let (k, filed) = create_at_lem now cfg s s' id (get_key platform cfg) h in
      (k, λ j. rw filed (first-append j (stamped id now cfg) (docs s)))

  append_lem :
      (now : ℕ) (cfg : TopicConfig) (s s' : S) (key : String)
      → get_key platform cfg ≡ ok key
      → docs s' ≡ docs s ++ (stamped key now cfg ∷ [])
      → Created platform coll docs now cfg s s' key
  append_lem now cfg s s' key k filed =
      (k, λ j. rw filed (first-append j (stamped key now cfg) (docs s)))

  insert_failed_lem :
      (now : ℕ) (cfg : TopicConfig) (s s' : S) (key e : String) (x : Option String × S)
      → get_key platform cfg ≡ ok key
      → coll.insert_one (stamped key now cfg) s ≡ x
      → inserted coll key x ≡ (err e, s')
      → (docs s' ≡ docs s) ⊎ ((key : String) × Created platform coll docs now cfg s s' key)
  insert_failed_lem now cfg s s' key e (none, t) g h k = cc
  insert_failed_lem now cfg s s' key e (some e', t) g h k =
      let same : t ≡ s' = cc in
      elim (lawful.insert_failed (stamped key now cfg) s t e' h) [
        | inl kept ↦ inl (rw same at kept)
        | inr (filed, _) ↦ inr (key, append_lem now cfg s s' key g (rw same at filed))
      ]

  failed_create_at_lem :
      (now : ℕ) (cfg : TopicConfig) (s s' : S) (e : String) (k : Result String)
      → get_key platform cfg ≡ k
      → create_at coll now cfg s k ≡ (err e, s')
      → (docs s' ≡ docs s) ⊎ ((key : String) × Created platform coll docs now cfg s s' key)
  failed_create_at_lem now cfg s s' e (err bad) g h =
      let same : s ≡ s' = cc in inl (rw (← same) refl)
  failed_create_at_lem now cfg s s' e (ok key) g h =
      insert_failed_lem now cfg s s' key e (coll.insert_one (stamped key now cfg) s) g refl h

  pub failed_create_lem :
      (now : ℕ) (cfg : TopicConfig) (s s' : S) (e : String)
      → create coll platform now cfg s ≡ (err e, s')
      → (docs s' ≡ docs s) ⊎ ((key : String) × Created platform coll docs now cfg s s' key)
  unfolding create
  failed_create_lem now cfg s s' e h =
      failed_create_at_lem now cfg s s' e (get_key platform cfg) refl h

  set_first_lem :
      (now : ℕ) (cfg old : TopicConfig) (s s' : S) (key : String)
      → coll.find_one key s ≡ ok old
      → docs s' ≡ set_first key (changes_of now cfg) (docs s)
      → Updated platform coll docs now cfg old s s' key
  set_first_lem now cfg old s s' key f wrote j =
      rw wrote (first-set_first key j (changes_of now cfg) old (docs s) (lawful.found key s old f))

  -- The write of an update of a stored document.
  set_lem :
      (now : ℕ) (cfg old : TopicConfig) (s s' : S) (key id : String) (x : Option String × S)
      → coll.find_one key s ≡ ok old
      → coll.update_one key (changes_of now cfg) s ≡ x
      → inserted coll key x ≡ (ok id, s')
      → (id ≡ key)
        × ((j : String)
            → first j (docs s')
              ≡ (if key == j then some (set_fields (changes_of now cfg) old) else first j (docs s)))
  set_lem now cfg old s s' key id (some e, t) f u h = cc
  set_lem now cfg old s s' key id (none, t) f u h =
      let same : t ≡ s' = cc in
      (
        cc,
        set_first_lem now cfg old s s' key f
            (rw same at (lawful.updated key (changes_of now cfg) s t u)),
      )

  pub updated_lem :
      (now : ℕ) (cfg old : TopicConfig) (s s' : S) (key id : String)
      → get_key platform cfg ≡ ok key
      → coll.find_one key s ≡ ok old
      → update coll platform now cfg s ≡ (ok id, s')
      → (id ≡ key)
        × ((j : String)
            → first j (docs s')
              ≡ (if key == j then some (set_fields (changes_of now cfg) old) else first j (docs s)))
  unfolding update exists
  updated_lem now cfg old s s' key id k f h =
      set_lem now cfg old s s' key id (coll.update_one key (changes_of now cfg) s) f refl
        (rw (k, f) at h)

  update_failed_lem :
      (now : ℕ) (cfg old : TopicConfig) (s s' : S) (key e : String) (x : Option String × S)
      → coll.find_one key s ≡ ok old
      → coll.update_one key (changes_of now cfg) s ≡ x
      → inserted coll key x ≡ (err e, s')
      → (docs s' ≡ docs s) ⊎ Wrote platform coll docs now cfg s s' key
  update_failed_lem now cfg old s s' key e (none, t) f u h = cc
  update_failed_lem now cfg old s s' key e (some e', t) f u h =
      let same : t ≡ s' = cc in
      elim (lawful.update_failed key (changes_of now cfg) s t e' u) [
        | inl kept ↦ inl (rw same at kept)
        | inr wrote ↦ inr (inr (old, f, set_first_lem now cfg old s s' key f (rw same at wrote)))
      ]

  found_lem : (x : Result TopicConfig) → existing x ≡ ok true → (doc : TopicConfig) × (x ≡ ok doc)
  found_lem (ok doc) h = (doc, refl)
  found_lem (err e) h = absurd (ground arith)

  -- An update that stores the document as a new one.
  anew_lem :
      (now : ℕ) (cfg : TopicConfig) (s s' : S)
      → (docs s' ≡ docs s) ⊎ ((key : String) × Created platform coll docs now cfg s s' key)
      → (docs s' ≡ docs s)
        ⊎ ((key : String) × (get_key platform cfg ≡ ok key)
            × Wrote platform coll docs now cfg s s' key)
  anew_lem now cfg s s' (inl kept) = inl kept
  anew_lem now cfg s s' (inr (key, made)) = inr (key, made.0, inl made)

  failed_update_if_lem :
      (now : ℕ) (cfg : TopicConfig) (s s' : S) (key e : String) (b : Result Bool)
      → get_key platform cfg ≡ ok key
      → existing (coll.find_one key s) ≡ b
      → update_if coll platform now cfg key s b ≡ (err e, s')
      → (docs s' ≡ docs s)
        ⊎ ((key : String) × (get_key platform cfg ≡ ok key)
            × Wrote platform coll docs now cfg s s' key)
  failed_update_if_lem now cfg s s' key e (err bad) g x h =
      let same : s ≡ s' = cc in inl (rw (← same) refl)
  failed_update_if_lem now cfg s s' key e (ok false) g x h =
      anew_lem now cfg s s' (failed_create_lem now cfg s s' e h)
  failed_update_if_lem now cfg s s' key e (ok true) g x h =
      let (old, f) = found_lem (coll.find_one key s) x in
      elim (update_failed_lem now cfg old s s' key e (coll.update_one key (changes_of now cfg) s) f
        refl h) [ inl kept ↦ inl kept | inr wrote ↦ inr (key, g, wrote) ]

  failed_update_at_lem :
      (now : ℕ) (cfg : TopicConfig) (s s' : S) (e : String) (k : Result String)
      → get_key platform cfg ≡ k
      → update_at coll platform now cfg s k ≡ (err e, s')
      → (docs s' ≡ docs s)
        ⊎ ((key : String) × (get_key platform cfg ≡ ok key)
            × Wrote platform coll docs now cfg s s' key)
  unfolding exists
  failed_update_at_lem now cfg s s' e (err bad) g h =
      let same : s ≡ s' = cc in inl (rw (← same) refl)
  failed_update_at_lem now cfg s s' e (ok key) g h =
      failed_update_if_lem now cfg s s' key e (existing (coll.find_one key s)) g refl h

  pub failed_update_lem :
      (now : ℕ) (cfg : TopicConfig) (s s' : S) (e : String)
      → update coll platform now cfg s ≡ (err e, s')
      → (docs s' ≡ docs s)
        ⊎ ((key : String) × (get_key platform cfg ≡ ok key)
            × Wrote platform coll docs now cfg s s' key)
  unfolding update
  failed_update_lem now cfg s s' e h =
      failed_update_at_lem now cfg s s' e (get_key platform cfg) refl h
