-- ===== src/Db/PulsarDb/Recovery.antt =====
-- The messages that the broker has confirmed rebuild the table in memory, for a reader that applies
-- each of them.
use pulsar_beam.Prelude.{
  ℕ, String, ◌≡◌, ◌≢◌, refl, List, [], ◌∷◌, ◌++◌, All, Option-cases, inl, inr, Option, none, some,
  Result, ok, err, >>=-eq-ok, arith,
}
use pulsar_beam.Prelude.Maps.{Map, lookup, insert, lookup-insert, lookup-delete}
use pulsar_beam.Platform.{Platform}
use pulsar_beam.Model.Topic.{deleted, TopicConfig}
use pulsar_beam.Db.{stamped}
use pulsar_beam.Db.PulsarDb.{
  Message, Broker, PulsarHandler, publish, marked_deleted, create, update, delete_by_key,
  get_by_key, update_cache_and_pulsar, apply_doc,
}
use pulsar_beam.Db.PulsarDb.Effects.{
  update_cache_and_pulsar_lem, delete_by_key_lem, create_lem, update_key_lem, update_new_lem,
  update_old_lem, refused_create_lem, refused_update_lem, refused_delete_lem,
}

-- A reader without the listener's lock: every document that decodes is applied, in order.
abbrev apply_some : Option TopicConfig → Map TopicConfig → Map TopicConfig
apply_some none topics = topics
apply_some (some doc) topics = apply_doc doc topics

unfoldable pub replay :
    {P : Type 0} → (P → Option TopicConfig) → List (Message P) → Map TopicConfig → Map TopicConfig
replay unmarshal [] topics = topics
replay unmarshal (msg ∷ msgs) topics =
    replay unmarshal msgs (apply_some (unmarshal msg.payload) topics)

replay-append :
    {P : Type 0} (unmarshal : P → Option TopicConfig) (msgs : List (Message P)) (msg : Message P)
    (topics : Map TopicConfig)
    → replay unmarshal (msgs ++ msg ∷ []) topics
      ≡ apply_some (unmarshal msg.payload) (replay unmarshal msgs topics)
unfolding replay
replay-append unmarshal [] msg topics = refl
replay-append unmarshal (m ∷ msgs) msg topics =
    replay-append unmarshal msgs msg (apply_some (unmarshal m.payload) topics)

-- The operations that write, with the clock.
pub data Op : Type 0 where
  op_create : ℕ → TopicConfig → Op
  op_update : ℕ → TopicConfig → Op
  op_delete : String → Op

-- No operation writes a document that is marked as deleted.
abbrev pub IsLive : Op → Type 0
IsLive (op_create now cfg) = cfg.topic_status ≢ deleted
IsLive (op_update now cfg) = cfg.topic_status ≢ deleted
IsLive (op_delete key) = Unit

module _ {P : Type 0} (platform : Platform) (broker : Broker P) where
  pub step : Op → PulsarHandler P → Result String × PulsarHandler P
  step (op_create now cfg) s = create broker platform now cfg s
  step (op_update now cfg) s = update broker platform now cfg s
  step (op_delete key) s = delete_by_key broker key s

  pub run_ops : List Op → PulsarHandler P → PulsarHandler P
  run_ops [] s = s
  run_ops (op ∷ ops) s = run_ops ops (step op s).1

  -- The confirmed messages, replayed, and the table show the same document under every key.
  abbrev pub IsSynced : PulsarHandler P → Type 0
  IsSynced s = (j : String) → lookup j (replay broker.unmarshal s.confirmed []) ≡ lookup j s.topics

module _ {P : Type 0} (platform : Platform) (broker : Broker P)
    (decodes : (d : TopicConfig) (p : P)
      → broker.marshal d ≡ ok p
      → broker.unmarshal p ≡ some d) where
  publish_lem :
      (doc : TopicConfig) (confirmed confirmed' : List (Message P))
      → publish broker doc confirmed ≡ ok confirmed'
      → (msg : Message P) × (confirmed' ≡ confirmed ++ msg ∷ [])
        × (broker.unmarshal msg.payload ≡ some doc)
  unfolding publish
  publish_lem doc confirmed confirmed' e =
      let (payload, coded, e') = >>=-eq-ok (broker.marshal doc) _ e in
      (record { key = doc.key; payload = payload }, ground arith, decodes doc payload coded)

  replay-publish :
      (doc : TopicConfig) (confirmed confirmed' : List (Message P))
      → publish broker doc confirmed ≡ ok confirmed'
      → replay broker.unmarshal confirmed' [] ≡ apply_doc doc (replay broker.unmarshal confirmed [])
  replay-publish doc confirmed confirmed' e =
      let (msg, same, coded) = publish_lem doc confirmed confirmed' e in
      rw (same, replay-append, coded)

  apply_doc_live :
      (doc : TopicConfig) (topics : Map TopicConfig)
      → doc.topic_status ≢ deleted
      → apply_doc doc topics ≡ insert doc.key doc topics
  unfolding apply_doc
  apply_doc_live doc topics live = ground arith

  insert-IsSynced :
      (doc : TopicConfig) (s s' : PulsarHandler P) (id : String)
      → doc.topic_status ≢ deleted
      → update_cache_and_pulsar broker doc s ≡ (ok id, s')
      → IsSynced platform broker s
      → IsSynced platform broker s'
  insert-IsSynced doc s s' id live e h j =
      let (_, same, wrote) = update_cache_and_pulsar_lem broker doc s s' id e in
      rw
        (
          same,
          replay-publish doc s.confirmed s'.confirmed wrote,
          apply_doc_live doc _ live,
          lookup-insert,
        )
        (ground (arith, lookup-insert doc.key j doc s.topics, h j))

  delete-IsSynced :
      (s s' : PulsarHandler P) (key id : String)
      → delete_by_key broker key s ≡ (ok id, s')
      → IsSynced platform broker s
      → IsSynced platform broker s'
  unfolding apply_doc
  delete-IsSynced s s' key id e h j =
      let (_, v, found, same, wrote) = delete_by_key_lem broker s s' key id e in
      rw (same, replay-publish (marked_deleted v) s.confirmed s'.confirmed wrote)
        (rw lookup-delete (ground (arith, lookup-delete v.key j s.topics, h j)))

  create-IsSynced :
      (now : ℕ) (cfg : TopicConfig) (s s' : PulsarHandler P) (r : Result String)
      → cfg.topic_status ≢ deleted
      → create broker platform now cfg s ≡ (r, s')
      → IsSynced platform broker s
      → IsSynced platform broker s'
  create-IsSynced now cfg s s' (ok id) live e h =
      let (_, _, wrote) = create_lem broker platform now cfg s s' id e in
      insert-IsSynced (stamped id now cfg) s s' id live wrote h
  create-IsSynced now cfg s s' (err m) live e h =
      rw (refused_create_lem broker platform now cfg s s' m e) h

  update-IsSynced :
      (now : ℕ) (cfg : TopicConfig) (s s' : PulsarHandler P) (r : Result String)
      → cfg.topic_status ≢ deleted
      → update broker platform now cfg s ≡ (r, s')
      → IsSynced platform broker s
      → IsSynced platform broker s'
  update-IsSynced now cfg s s' (ok id) live e h =
      let (key, k) = update_key_lem broker platform now cfg s s' id e in
      elim (Option-cases (lookup key s.topics)) [
        | inl n ↦
            insert-IsSynced (stamped key now cfg) s s' id live
              (update_new_lem broker platform now cfg s s' key id k (unfold get_by_key in rw n) e) h
        | inr (v, o) ↦
            insert-IsSynced cfg s s' id live
              (update_old_lem broker platform now cfg v s s' key id k (unfold get_by_key in rw o) e)
              h
      ]
  update-IsSynced now cfg s s' (err m) live e h =
      rw (refused_update_lem broker platform now cfg s s' m e) h

  delete_by_key-IsSynced :
      (key : String) (s s' : PulsarHandler P) (r : Result String)
      → delete_by_key broker key s ≡ (r, s')
      → IsSynced platform broker s
      → IsSynced platform broker s'
  delete_by_key-IsSynced key s s' (ok id) e h = delete-IsSynced s s' key id e h
  delete_by_key-IsSynced key s s' (err m) e h =
      rw (refused_delete_lem broker platform s s' key m e) h

  step-IsSynced :
      (op : Op) (s : PulsarHandler P)
      → IsLive op
      → IsSynced platform broker s
      → IsSynced platform broker (step platform broker op s).1
  unfolding step
  step-IsSynced (op_create now cfg) s live h = create-IsSynced now cfg s _ _ live refl h
  step-IsSynced (op_update now cfg) s live h = update-IsSynced now cfg s _ _ live refl h
  step-IsSynced (op_delete key) s live h = delete_by_key-IsSynced key s _ _ refl h

  -- If the JSON coder decodes what it encodes, and the confirmed messages rebuild the table at first,
  -- then after any creations, updates and deletions, none of which writes a document that is marked as
  -- deleted, a reader that applies the messages whose sends the broker has confirmed, in order, and no
  -- others, finds under every key what the table shows.
  pub replay-run_ops :
      (ops : List Op) (s : PulsarHandler P)
      → All IsLive ops
      → IsSynced platform broker s
      → (j : String)
      → lookup j (replay broker.unmarshal (run_ops platform broker ops s).confirmed [])
        ≡ lookup j (run_ops platform broker ops s).topics
  unfolding run_ops
  replay-run_ops [] s live h j = h j
  replay-run_ops (op ∷ ops) s (l, live) h j =
      replay-run_ops ops (step platform broker op s).1 live (step-IsSynced op s l h) j
