-- ===== src/Db/PulsarDb/Effects.antt =====
-- The Pulsar driver keeps the contract of the database.
use pulsar_beam.Prelude.{ℕ, String, ◌≡◌, ◌∙◌, Option-cases, inl, inr, some, ok, err, arith, eq_iff}
use pulsar_beam.Prelude.Maps.{lookup, insert, delete, lookup-insert, lookup-delete}
use pulsar_beam.Platform.{Platform}
use pulsar_beam.Model.Topic.{TopicConfig}
use pulsar_beam.Db.{doc_not_found, get_key, stamped}
use pulsar_beam.Db.Contract.{IsKeyed, Files, Drops, IsLawful}
use pulsar_beam.Db.PulsarDb.{
  Broker, PulsarHandler, publish, marked_deleted, get_by_key, create, update, delete_by_key,
  update_cache_and_pulsar, pulsar_db,
}

abbrev pub IsFiled : {P : Type 0} → PulsarHandler P → Type 0
IsFiled s = IsKeyed s.topics

module _ {P : Type 0} (broker : Broker P) where
  -- What a successful write has done.
  pub update_cache_and_pulsar_lem :
      (cfg : TopicConfig) (s s' : PulsarHandler P) (id : String)
      → update_cache_and_pulsar broker cfg s ≡ (ok id, s')
      → (id ≡ cfg.key)
        × (s'.topics ≡ insert cfg.key cfg s.topics)
        × (publish broker cfg s.confirmed ≡ ok s'.confirmed)
  unfolding update_cache_and_pulsar
  update_cache_and_pulsar_lem cfg s s' id e = ground arith

  pub delete_by_key_lem :
      (s s' : PulsarHandler P) (key id : String)
      → delete_by_key broker key s ≡ (ok id, s')
      → (id ≡ key)
        × (v : TopicConfig) × (lookup key s.topics ≡ some v)
        × (s'.topics ≡ delete v.key s.topics)
        × (publish broker (marked_deleted v) s.confirmed ≡ ok s'.confirmed)
  unfolding delete_by_key
  delete_by_key_lem s s' key id e = elim (Option-cases (lookup key s.topics)) [
    | inl missing ↦ absurd (ground arith)
    | inr (v, found) ↦ (ground arith, v, found, ground arith, ground arith)
  ]

  module _ (platform : Platform) where
    pub create_lem :
        (now : ℕ) (cfg : TopicConfig) (s s' : PulsarHandler P) (id : String)
        → create broker platform now cfg s ≡ (ok id, s')
        → (get_key platform cfg ≡ ok id)
          × (get_by_key id s ≡ err doc_not_found)
          × (update_cache_and_pulsar broker (stamped id now cfg) s ≡ (ok id, s'))
    unfolding create get_by_key
    create_lem now cfg s s' id e = ground arith

    pub update_new_lem :
        (now : ℕ) (cfg : TopicConfig) (s s' : PulsarHandler P) (key id : String)
        → get_key platform cfg ≡ ok key
        → get_by_key key s ≡ err doc_not_found
        → update broker platform now cfg s ≡ (ok id, s')
        → update_cache_and_pulsar broker (stamped key now cfg) s ≡ (ok id, s')
    unfolding update create get_by_key
    update_new_lem now cfg s s' key id k n e = ground arith

    pub update_old_lem :
        (now : ℕ) (cfg v : TopicConfig) (s s' : PulsarHandler P) (key id : String)
        → get_key platform cfg ≡ ok key
        → get_by_key key s ≡ ok v
        → update broker platform now cfg s ≡ (ok id, s')
        → update_cache_and_pulsar broker cfg s ≡ (ok id, s')
    unfolding update create get_by_key
    update_old_lem now cfg v s s' key id k o e = ground arith

    insert-Files :
        (key : String) (doc : TopicConfig) (s s' : PulsarHandler P)
        → s'.topics ≡ insert key doc s.topics
        → Files (pulsar_db broker platform) key doc s s'
    unfolding get_by_key
    insert-Files key doc s s' e j = rw (e, lookup-insert) (ground arith)

    insert-IsFiled :
        (doc : TopicConfig) (s s' : PulsarHandler P)
        → s'.topics ≡ insert doc.key doc s.topics
        → IsFiled s
        → IsFiled s'
    insert-IsFiled doc s s' e h = record {
      at_key = λ k v. rw (e, lookup-insert) (ground (arith, eq_iff doc.key k, h.at_key k v));
    }

    delete-Drops :
        (key : String) (s s' : PulsarHandler P)
        → s'.topics ≡ delete key s.topics
        → Drops (pulsar_db broker platform) key s s'
    unfolding get_by_key
    delete-Drops key s s' e j = rw (e, lookup-delete) (ground arith)

    delete-IsFiled :
        (key : String) (s s' : PulsarHandler P)
        → s'.topics ≡ delete key s.topics
        → IsFiled s
        → IsFiled s'
    delete-IsFiled key s s' e h = record {
      at_key = λ k v. rw (e, lookup-delete) (ground (arith, eq_iff key k, h.at_key k v));
    }

    pub update_key_lem :
        (now : ℕ) (cfg : TopicConfig) (s s' : PulsarHandler P) (id : String)
        → update broker platform now cfg s ≡ (ok id, s')
        → (key : String) × (get_key platform cfg ≡ ok key)
    unfolding update create
    update_key_lem now cfg s s' id e = ground arith

    pub refused_create_lem :
        (now : ℕ) (cfg : TopicConfig) (s s' : PulsarHandler P) (e : String)
        → create broker platform now cfg s ≡ (err e, s')
        → s' ≡ s
    unfolding create
    refused_create_lem now cfg s s' e h = ground arith

    pub refused_update_lem :
        (now : ℕ) (cfg : TopicConfig) (s s' : PulsarHandler P) (e : String)
        → update broker platform now cfg s ≡ (err e, s')
        → s' ≡ s
    unfolding update create
    refused_update_lem now cfg s s' e h = ground arith

    pub refused_delete_lem :
        (s s' : PulsarHandler P) (key e : String)
        → delete_by_key broker key s ≡ (err e, s')
        → s' ≡ s
    unfolding delete_by_key
    refused_delete_lem s s' key e h = ground arith

    -- Over the states in which every document stands under its own key, the Pulsar driver keeps the
    -- same contract as the in-memory one, whatever the JSON coder and the broker answer.
    pub pulsar_db-IsLawful : IsLawful platform (pulsar_db broker platform) IsFiled
    pulsar_db-IsLawful = record {
      created = λ now cfg s s' key h e.
          let (k, fresh, wrote) = create_lem now cfg s s' key e in
          let (_, same, _) = update_cache_and_pulsar_lem _ s s' key wrote in
          (
            k,
            fresh,
            insert-Files key (stamped key now cfg) s s' same,
            insert-IsFiled (stamped key now cfg) s s' same h,
          );
      updated_key = update_key_lem;
      updated_new = λ now cfg s s' key id h k n e.
          let (own, same, _) =
            update_cache_and_pulsar_lem _ s s' id (update_new_lem now cfg s s' key id k n e) in
          (
            own,
            insert-Files key (stamped key now cfg) s s' same,
            insert-IsFiled (stamped key now cfg) s s' same h,
          );
      updated_old = λ now cfg v s s' key id h k o e.
          let (own, same, _) =
            update_cache_and_pulsar_lem _ s s' id (update_old_lem now cfg v s s' key id k o e) in
          (λ c. own ∙ c, insert-Files cfg.key cfg s s' same, insert-IsFiled cfg s s' same h);
      deleted = λ s s' key id h e.
          let (same_id, v, found, same, _) = delete_by_key_lem s s' key id e in
          let own : v.key ≡ key = h.at_key key v found in
          (same_id, delete-Drops key s s' (rw own at same), delete-IsFiled v.key s s' same h);
      refused_create = refused_create_lem;
      refused_update = refused_update_lem;
      refused_delete = refused_delete_lem;
    }
