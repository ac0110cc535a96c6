-- ===== src/Db/Mongo/Contract.antt =====
-- What the MongoDB driver promises over any collection that behaves as documented.
use pulsar_beam.Prelude.{
  ℕ, String, ◌⊎◌, Bool, true, false, Option, none, List, Result, ok, err, ◌≡◌, refl, if◌then◌else◌,
  ◌==◌, arith,
}
use pulsar_beam.Platform.{Platform}
use pulsar_beam.Model.Topic.{TopicConfig}
use pulsar_beam.Db.{get_key}
use pulsar_beam.Db.Mongo.{Collection, removed, delete_if, exists, create, update, delete_by_key}
use pulsar_beam.Db.Mongo.Collections.{first, IsCollection, first-without, first-eq-without}
use pulsar_beam.Db.Mongo.Writes.{
  Created, Updated, Wrote, created_lem, failed_create_lem, updated_lem, failed_update_lem,
}

-- What each method does to the document under every key.
pub record IsStore {S : Type 0} (platform : Platform) (coll : Collection S)
    (docs : S → List TopicConfig) : Type 0 where
  pub created :
      (now : ℕ) (cfg : TopicConfig) (s s' : S) (id : String)
      → create coll platform now cfg s ≡ (ok id, s')
      → Created platform coll docs now cfg s s' id
  pub failed_create :
      (now : ℕ) (cfg : TopicConfig) (s s' : S) (e : String)
      → create coll platform now cfg s ≡ (err e, s')
      → (docs s' ≡ docs s) ⊎ ((key : String) × Created platform coll docs now cfg s s' key)
  pub updated :
      (now : ℕ) (cfg old : TopicConfig) (s s' : S) (key id : String)
      → get_key platform cfg ≡ ok key
      → coll.find_one key s ≡ ok old
      → update coll platform now cfg s ≡ (ok id, s')
      → (id ≡ key) × Updated platform coll docs now cfg old s s' key
  pub failed_update :
      (now : ℕ) (cfg : TopicConfig) (s s' : S) (e : String)
      → update coll platform now cfg s ≡ (err e, s')
      → (docs s' ≡ docs s)
        ⊎ ((key : String) × (get_key platform cfg ≡ ok key)
            × Wrote platform coll docs now cfg s s' key)
  pub deleted :
      (s s' : S) (key id : String)
      → delete_by_key coll key s ≡ (ok id, s')
      → (id ≡ key)
        × ((j : String) → first j (docs s') ≡ (if key == j then none else first j (docs s)))
  pub not_found :
      (s : S) (key e : String)
      → coll.find_one key s ≡ err e
      → delete_by_key coll key s ≡ (err "topic does not exist", s)
  pub failed_delete :
      (s s' : S) (key j e : String)
      → delete_by_key coll key s ≡ (err e, s')
      → (key == j) ≡ false
      → first j (docs s') ≡ first j (docs s)

module _ {S : Type 0} (platform : Platform) (coll : Collection S) (docs : S → List TopicConfig)
    {indexed : TopicConfig → Option String} (lawful : IsCollection coll docs indexed) where
  removed_lem :
      (s s' : S) (key id : String) (x : Result ℕ × S)
      → coll.delete_many key s ≡ x
      → removed coll key x ≡ (ok id, s')
      → (id ≡ key)
        × ((j : String) → first j (docs s') ≡ (if key == j then none else first j (docs s)))
  removed_lem s s' key id (err e, t) d h = cc
  removed_lem s s' key id (ok n, t) d h =
      let same : t ≡ s' = cc in
      (
        ground arith,
        λ j. rw (← same, (lawful.removed key n s t d).0) (first-without key j (docs s)),
      )

  delete_if_lem :
      (s s' : S) (key id : String) (b : Result Bool)
      → delete_if coll key s b ≡ (ok id, s')
      → (id ≡ key)
        × ((j : String) → first j (docs s') ≡ (if key == j then none else first j (docs s)))
  delete_if_lem s s' key id (err e) h = cc
  delete_if_lem s s' key id (ok false) h = cc
  delete_if_lem s s' key id (ok true) h = removed_lem s s' key id (coll.delete_many key s) refl h

  remove_failed_lem :
      (s s' : S) (key j e : String) (x : Result ℕ × S)
      → coll.delete_many key s ≡ x
      → removed coll key x ≡ (err e, s')
      → (key == j) ≡ false
      → first j (docs s') ≡ first j (docs s)
  remove_failed_lem s s' key j e (err e', t) d h other =
      let same : t ≡ s' = cc in
      rw (← same)
        (first-eq-without key j (docs s) (docs t) (lawful.remove_failed key e' s t d) other)
  remove_failed_lem s s' key j e (ok n, t) d h other =
      let same : t ≡ s' = cc in
      rw (← same, (lawful.removed key n s t d).0) (rw other at (first-without key j (docs s)))

  failed_delete_if_lem :
      (s s' : S) (key j e : String) (b : Result Bool)
      → delete_if coll key s b ≡ (err e, s')
      → (key == j) ≡ false
      → first j (docs s') ≡ first j (docs s)
  failed_delete_if_lem s s' key j e (err bad) h other = let same : s ≡ s' = cc in rw (← same) refl
  failed_delete_if_lem s s' key j e (ok false) h other = let same : s ≡ s' = cc in rw (← same) refl
  failed_delete_if_lem s s' key j e (ok true) h other =
      remove_failed_lem s s' key j e (coll.delete_many key s) refl h other

  not_found_lem :
      (s : S) (key e : String)
      → coll.find_one key s ≡ err e
      → delete_by_key coll key s ≡ (err "topic does not exist", s)
  unfolding delete_by_key exists
  not_found_lem s key e h = rw h (ground arith)

  -- Over a collection that behaves as documented, what succeeds has its effect on the document under
  -- every key. A creation or an update that fails has done nothing, or what it does where it succeeds;
  -- a deletion of what is not found changes nothing, and one that fails leaves what every other key
  -- shows.
  pub mongo_db-IsStore : IsStore platform coll docs
  unfolding delete_by_key
  mongo_db-IsStore = record {
    created = created_lem platform coll docs lawful;
    failed_create = failed_create_lem platform coll docs lawful;
    updated = updated_lem platform coll docs lawful;
    failed_update = failed_update_lem platform coll docs lawful;
    deleted = λ s s' key id h. delete_if_lem s s' key id (exists coll key s) h;
    not_found = not_found_lem;
    failed_delete = λ s s' key j e h. failed_delete_if_lem s s' key j e (exists coll key s) h;
  }
