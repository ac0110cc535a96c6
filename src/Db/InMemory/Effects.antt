-- ===== src/Db/InMemory/Effects.antt =====
-- The in-memory driver keeps the contract of the database.
use pulsar_beam.Prelude.{ℕ, String, ◌≡◌, refl, ok, err, arith, eq_iff}
use pulsar_beam.Prelude.Maps.{insert, lookup-insert, delete, lookup-delete}
use pulsar_beam.Platform.{Platform}
use pulsar_beam.Model.Topic.{TopicConfig}
use pulsar_beam.Db.{doc_not_found, get_key, stamped}
use pulsar_beam.Db.Contract.{IsKeyed, Files, Drops, IsLawful}
use pulsar_beam.Db.InMemory.{Topics, get_by_key, create, update, delete_by_key, in_memory}

module _ (platform : Platform) where
  insert-Files :
      (key : String) (doc : TopicConfig) (m : Topics)
      → Files (in_memory platform) key doc m (insert key doc m)
  unfolding get_by_key
  insert-Files key doc m j = rw lookup-insert (ground arith)

  insert-IsKeyed :
      (key : String) (doc : TopicConfig) (m : Topics)
      → doc.key ≡ key
      → IsKeyed m
      → IsKeyed (insert key doc m)
  insert-IsKeyed key doc m e h = record {
    at_key = λ k v. rw lookup-insert (ground (arith, eq_iff key k, h.at_key k v));
  }

  create_lem :
      (now : ℕ) (cfg : TopicConfig) (m m' : Topics) (key : String)
      → create platform now cfg m ≡ (ok key, m')
      → (get_key platform cfg ≡ ok key)
        × (get_by_key key m ≡ err doc_not_found)
        × (m' ≡ insert key (stamped key now cfg) m)
  unfolding create get_by_key
  create_lem now cfg m m' key e = ground arith

  update_key_lem :
      (now : ℕ) (cfg : TopicConfig) (m m' : Topics) (id : String)
      → update platform now cfg m ≡ (ok id, m')
      → get_key platform cfg ≡ ok id
  unfolding update create
  update_key_lem now cfg m m' id e = ground arith

  update_new_lem :
      (now : ℕ) (cfg : TopicConfig) (m m' : Topics) (key id : String)
      → get_key platform cfg ≡ ok key
      → get_by_key key m ≡ err doc_not_found
      → update platform now cfg m ≡ (ok id, m')
      → (id ≡ key) × (m' ≡ insert key (stamped key now cfg) m)
  unfolding update create get_by_key
  update_new_lem now cfg m m' key id k n e = ground arith

  update_old_lem :
      (now : ℕ) (cfg v : TopicConfig) (m m' : Topics) (key id : String)
      → get_key platform cfg ≡ ok key
      → get_by_key key m ≡ ok v
      → update platform now cfg m ≡ (ok id, m')
      → (id ≡ key) × (m' ≡ insert cfg.key cfg m)
  unfolding update create get_by_key
  update_old_lem now cfg v m m' key id k o e = ground arith

  delete_by_key_lem :
      (m m' : Topics) (key key' : String)
      → delete_by_key key m ≡ (ok key', m')
      → (key' ≡ key) × (m' ≡ delete key m)
  unfolding delete_by_key
  delete_by_key_lem m m' key key' e = ground arith

  delete-Drops : (key : String) (m : Topics) → Drops (in_memory platform) key m (delete key m)
  unfolding get_by_key
  delete-Drops key m j = rw lookup-delete (ground arith)

  delete-IsKeyed : (key : String) (m : Topics) → IsKeyed m → IsKeyed (delete key m)
  delete-IsKeyed key m h = record {
    at_key = λ k v. rw lookup-delete (ground (arith, eq_iff key k, h.at_key k v));
  }

  refused_lem :
      (now : ℕ) (cfg : TopicConfig) (m m' : Topics) (e : String)
      → (create platform now cfg m ≡ (err e, m') → m' ≡ m)
        × (update platform now cfg m ≡ (err e, m') → m' ≡ m)
  unfolding create update
  refused_lem now cfg m m' e = (λ h. ground arith, λ h. ground arith)

  refused_delete_lem : (m m' : Topics) (key e : String) → delete_by_key key m ≡ (err e, m') → m' ≡ m
  unfolding delete_by_key
  refused_delete_lem m m' key e h = ground arith

  -- Over the states in which every document stands under its own key, the in-memory driver keeps
  -- the contract: what `Create`, `Update` and `DeleteByKey` do to every key, that they keep that
  -- invariant, and that they change nothing where they fail.
  pub in_memory-IsLawful : IsLawful platform (in_memory platform) IsKeyed
  in_memory-IsLawful = record {
    created = λ now cfg m m' key h e.
        let (k, fresh, same) = create_lem now cfg m m' key e in
        (
          k,
          fresh,
          rw same (insert-Files key (stamped key now cfg) m),
          rw same (insert-IsKeyed key (stamped key now cfg) m refl h),
        );
    updated_key = λ now cfg m m' id e. (id, update_key_lem now cfg m m' id e);
    updated_new = λ now cfg m m' key id h k n e.
        let (same_id, same) = update_new_lem now cfg m m' key id k n e in
        (
          same_id,
          rw same (insert-Files key (stamped key now cfg) m),
          rw same (insert-IsKeyed key (stamped key now cfg) m refl h),
        );
    updated_old = λ now cfg v m m' key id h k o e.
        let (same_id, same) = update_old_lem now cfg v m m' key id k o e in
        (
          λ _. same_id,
          rw same (insert-Files cfg.key cfg m),
          rw same (insert-IsKeyed cfg.key cfg m refl h),
        );
    deleted = λ m m' key key' h e.
        let (k, same) = delete_by_key_lem m m' key key' e in
        (k, rw same (delete-Drops key m), rw same (delete-IsKeyed key m h));
    refused_create = λ now cfg m m' e. (refused_lem now cfg m m' e).0;
    refused_update = λ now cfg m m' e. (refused_lem now cfg m m' e).1;
    refused_delete = refused_delete_lem;
  }
