-- ===== src/Db/Contract.antt =====
-- What a driver promises, in terms of `GetByKey` alone, over the states that satisfy its invariant.
use pulsar_beam.Prelude.{ℕ, String, ◌≡◌, ok, err, if◌then◌else◌, ◌==◌, some}
use pulsar_beam.Prelude.Maps.{Map, lookup}
use pulsar_beam.Platform.{Platform}
use pulsar_beam.Model.Topic.{TopicConfig}
use pulsar_beam.Db.{Crud, doc_not_found, get_key, stamped}

-- Every document stands under the key that it carries.
pub record IsKeyed (m : Map TopicConfig) : Type 0 where
  pub at_key : (k : String) (v : TopicConfig) → lookup k m ≡ some v → v.key ≡ k

module _ {S : Type 0} (crud : Crud S) where
  -- `s'` shows `doc` under the key, and what `s` shows under every other.
  abbrev pub Files : String → TopicConfig → S → S → Type 0
  Files key doc s s' =
      (j : String) → crud.get_by_key j s' ≡ (if key == j then ok doc else crud.get_by_key j s)

  -- `s'` shows no document under the key, and what `s` shows under every other.
  abbrev pub Drops : String → S → S → Type 0
  Drops key s s' =
      (j : String)
      → crud.get_by_key j s' ≡ (if key == j then err doc_not_found else crud.get_by_key j s)

pub record IsLawful {S : Type 0} (platform : Platform) (crud : Crud S) (Inv : S → Type 0)
    : Type 0 where
  pub created :
      (now : ℕ) (cfg : TopicConfig) (s s' : S) (key : String)
      → Inv s
      → crud.create now cfg s ≡ (ok key, s')
      → (get_key platform cfg ≡ ok key)
        × (crud.get_by_key key s ≡ err doc_not_found)
        × Files crud key (stamped key now cfg) s s'
        × Inv s'
  pub updated_key :
      (now : ℕ) (cfg : TopicConfig) (s s' : S) (id : String)
      → crud.update now cfg s ≡ (ok id, s')
      → (key : String) × (get_key platform cfg ≡ ok key)
  -- an update of a document that is not there yet creates it
  pub updated_new :
      (now : ℕ) (cfg : TopicConfig) (s s' : S) (key id : String)
      → Inv s
      → get_key platform cfg ≡ ok key
      → crud.get_by_key key s ≡ err doc_not_found
      → crud.update now cfg s ≡ (ok id, s')
      → (id ≡ key) × Files crud key (stamped key now cfg) s s' × Inv s'
  -- any other files the given document under the key that this document carries
  pub updated_old :
      (now : ℕ) (cfg v : TopicConfig) (s s' : S) (key id : String)
      → Inv s
      → get_key platform cfg ≡ ok key
      → crud.get_by_key key s ≡ ok v
      → crud.update now cfg s ≡ (ok id, s')
      → (cfg.key ≡ key → id ≡ key) × Files crud cfg.key cfg s s' × Inv s'
  pub deleted :
      (s s' : S) (key key' : String)
      → Inv s
      → crud.delete_by_key key s ≡ (ok key', s')
      → (key' ≡ key) × Drops crud key s s' × Inv s'
  pub refused_create :
      (now : ℕ) (cfg : TopicConfig) (s s' : S) (e : String)
      → crud.create now cfg s ≡ (err e, s')
      → s' ≡ s
  pub refused_update :
      (now : ℕ) (cfg : TopicConfig) (s s' : S) (e : String)
      → crud.update now cfg s ≡ (err e, s')
      → s' ≡ s
  pub refused_delete : (s s' : S) (key e : String) → crud.delete_by_key key s ≡ (err e, s') → s' ≡ s
