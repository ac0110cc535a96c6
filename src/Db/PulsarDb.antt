-- ===== src/Db/PulsarDb.antt =====
-- src/db/pulsardb.go: a topic as a table of documents, with a copy of the table in memory.
pub mod Effects
pub mod Recovery
pub mod Listener
pub mod Restarts
pub mod Connect
use pulsar_beam.Prelude.{
  ℕ, String, Bool, true, false, Option, none, some, List, [], ◌∷◌, ◌++◌, Result, ok, err, ◌>>=◌,
  if◌then◌else◌,
}
use pulsar_beam.Prelude.Maps.{Map, lookup, insert}
use pulsar_beam.Prelude.Maps
use pulsar_beam.Platform.{Platform}
use pulsar_beam.Model.Topic.{Status, deleted, TopicConfig, get_key_from_names}
use pulsar_beam.Db.{
  Crud, doc_not_found, doc_already_existed, get_key, found_doc, stamped, load_topics,
}

-- A message of the topic; `P` is the type of encoded documents.
pub record Message (P : Type 0) : Type 0 where
  pub key : String
  pub payload : P

-- The JSON coder, and what `Send` returns for a message, by the messages confirmed before it.
pub record Broker (P : Type 0) : Type 0 where
  pub marshal : TopicConfig → Result P
  pub unmarshal : P → Option TopicConfig
  pub send_error : List (Message P) → Message P → Option String

pub record PulsarHandler (P : Type 0) : Type 0 where
  pub topics : Map TopicConfig
  -- the messages that the broker has confirmed, in order. It may have stored one whose send came back
  -- with an error; such a message is in no list.
  pub confirmed : List (Message P)

unfoldable pub get_by_key : {P : Type 0} → String → PulsarHandler P → Result TopicConfig
get_by_key hashed_topic_key s = found_doc (lookup hashed_topic_key s.topics)

unfoldable pub load : {P : Type 0} → PulsarHandler P → List TopicConfig × Option String
unfolding load_topics
load s = (load_topics s.topics, none)

abbrev pub marked_deleted : TopicConfig → TopicConfig
marked_deleted v = record v { topic_status = deleted }

module _ {P : Type 0} (broker : Broker P) where
  -- `s.producer.Send`
  unfoldable pub send : Message P → List (Message P) → Result (List (Message P))
  send msg confirmed = elim (broker.send_error confirmed msg) [
    | none ↦ ok (confirmed ++ msg ∷ [])
    | some e ↦ err e
  ]

  -- Marshal a document, and send it under the key that it carries.
  unfoldable pub publish : TopicConfig → List (Message P) → Result (List (Message P))
  unfolding send
  publish doc confirmed =
      broker.marshal doc >>= λ payload. send (record { key = doc.key; payload = payload }) confirmed

  abbrev cached :
      TopicConfig → PulsarHandler P → Result (List (Message P)) → Result String × PulsarHandler P
  cached cfg s (err e) = (err e, s)
  cached cfg s (ok confirmed') =
      (ok cfg.key, record { topics = insert cfg.key cfg s.topics; confirmed = confirmed' })

  unfoldable pub update_cache_and_pulsar :
      TopicConfig → PulsarHandler P → Result String × PulsarHandler P
  unfolding publish
  update_cache_and_pulsar cfg s = cached cfg s (publish cfg s.confirmed)

  abbrev dropped :
      String
      → String
      → PulsarHandler P
      → Result (List (Message P))
      → Result String × PulsarHandler P
  dropped hashed_topic_key key s (err e) = (err e, s)
  dropped hashed_topic_key key s (ok confirmed') =
      (ok hashed_topic_key, record { topics = Maps.delete key s.topics; confirmed = confirmed' })

  unfoldable pub delete_by_key : String → PulsarHandler P → Result String × PulsarHandler P
  unfolding publish
  delete_by_key hashed_topic_key s = elim (lookup hashed_topic_key s.topics) [
    | none ↦ (err doc_not_found, s)
    | some v ↦ dropped hashed_topic_key v.key s (publish (marked_deleted v) s.confirmed)
  ]

  module _ (platform : Platform) where
    unfoldable pub get_by_topic : String → String → PulsarHandler P → Result TopicConfig
    unfolding get_by_key
    get_by_topic topic_full_name pulsar_url s =
        get_key_from_names platform topic_full_name pulsar_url >>= λ key. get_by_key key s

    abbrev create_at :
        ℕ → TopicConfig → PulsarHandler P → Result String → Result String × PulsarHandler P
    create_at now cfg s (err e) = (err e, s)
    create_at now cfg s (ok key) = elim (lookup key s.topics) [
      | some _ ↦ (err doc_already_existed, s)
      | none ↦ update_cache_and_pulsar (stamped key now cfg) s
    ]

    unfoldable pub create : ℕ → TopicConfig → PulsarHandler P → Result String × PulsarHandler P
    unfolding update_cache_and_pulsar
    create now cfg s = create_at now cfg s (get_key platform cfg)

    abbrev update_at :
        ℕ → TopicConfig → PulsarHandler P → Result String → Result String × PulsarHandler P
    update_at now cfg s (err e) = (err e, s)
    update_at now cfg s (ok key) = elim (lookup key s.topics) [
      | none ↦ create now cfg s
      -- as in the in-memory driver, the changed copy `v` of the stored document is not used
      | some v ↦ update_cache_and_pulsar cfg s
    ]

    unfoldable pub update : ℕ → TopicConfig → PulsarHandler P → Result String × PulsarHandler P
    unfolding create
    update now cfg s = update_at now cfg s (get_key platform cfg)

    abbrev delete_at : PulsarHandler P → Result String → Result String × PulsarHandler P
    delete_at s (err e) = (err e, s)
    delete_at s (ok key) = delete_by_key key s

    unfoldable pub delete : String → String → PulsarHandler P → Result String × PulsarHandler P
    unfolding delete_by_key
    delete topic_full_name pulsar_url s =
        delete_at s (get_key_from_names platform topic_full_name pulsar_url)

    abbrev pub pulsar_db : Crud (PulsarHandler P)
    pulsar_db = record {
      get_by_topic = get_by_topic;
      get_by_key = get_by_key;
      update = update;
      create = create;
      delete = delete;
      delete_by_key = delete_by_key;
      load = load;
    }

-- What a document that is read from the topic does to the table.
unfoldable pub apply_doc : TopicConfig → Map TopicConfig → Map TopicConfig
apply_doc doc topics = elim doc.topic_status [
  | deleted ↦ Maps.delete doc.key topics
  | _ ↦ insert doc.key doc topics
]

-- A run of `dbListener` over the map that it fills. The lock is taken for each document, and given
-- back only when the function returns: where it is held, the next `Lock` waits for ever.
pub record ListenerRun : Type 0 where
  pub topics : Map TopicConfig
  pub holds_lock : Bool
  pub is_blocked : Bool

unfoldable pub receive : Option TopicConfig → ListenerRun → ListenerRun
unfolding apply_doc
receive none run = run
receive (some doc) run =
    if run.holds_lock
    then record run { is_blocked = true }
    else record run { topics = apply_doc doc run.topics; holds_lock = true }

unfoldable pub db_listener :
    {P : Type 0} → (P → Option TopicConfig) → List P → ListenerRun → ListenerRun
unfolding receive
db_listener unmarshal [] run = run
db_listener unmarshal (payload ∷ payloads) run =
    let rest = db_listener unmarshal payloads (receive (unmarshal payload) run) in
    if run.is_blocked then run else rest

-- A listener is started with a reader at the earliest message of the topic, or without one.
pub data Listening (P : Type 0) : Type 0 where
  no_reader : String → Listening P
  read : List P → Listening P

abbrev pub new_run : Map TopicConfig → ListenerRun
new_run topics = record { topics = topics; holds_lock = false; is_blocked = false }

-- The goroutine of `Init`: a listener that returns, with its lock given back, is started again. Each of
-- the runs ends with an error of its reader, unless it waits for its lock.
unfoldable pub recover :
    {P : Type 0} → (P → Option TopicConfig) → List (Listening P) → Map TopicConfig → ListenerRun
unfolding db_listener
recover unmarshal [] topics = new_run topics
recover unmarshal (no_reader e ∷ runs) topics = recover unmarshal runs topics
recover unmarshal (read payloads ∷ runs) topics =
    let run = db_listener unmarshal payloads (new_run topics) in
    let rest = recover unmarshal runs run.topics in if run.is_blocked then run else rest
