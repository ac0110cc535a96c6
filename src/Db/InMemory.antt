-- ===== src/Db/InMemory.antt =====
-- src/db/in-memory.go. The state is the map of documents.
pub mod Effects
pub mod Filing
use pulsar_beam.Prelude.{
  ℕ, String, Bool, true, Option, none, some, List, Result, ok, err, ◌>>=◌, [],
}
use pulsar_beam.Prelude.Maps.{Map, lookup, insert}
use pulsar_beam.Prelude.Maps
use pulsar_beam.Platform.{Platform}
use pulsar_beam.Model.Topic.{TopicConfig, get_key_from_names}
use pulsar_beam.Db.{
  Crud, doc_not_found, doc_already_existed, get_key, found_doc, stamped, load_topics,
}

abbrev pub Topics : Type 0
Topics = Map TopicConfig

unfoldable pub init : Topics
init = []

unfoldable pub sync : Topics → Option String
sync topics = none

unfoldable pub health : Topics → Bool
health topics = true

unfoldable pub close : Topics → Option String
close topics = none

unfoldable pub new_in_memory_handler : Topics × Option String
unfolding init
new_in_memory_handler = (init, none)

unfoldable pub get_by_key : String → Topics → Result TopicConfig
get_by_key hashed_topic_key topics = found_doc (lookup hashed_topic_key topics)

unfoldable pub load : Topics → List TopicConfig × Option String
unfolding load_topics
load topics = (load_topics topics, none)

unfoldable pub delete_by_key : String → Topics → Result String × Topics
delete_by_key hashed_topic_key topics = elim (lookup hashed_topic_key topics) [
  | none ↦ (err doc_not_found, topics)
  | some _ ↦ (ok hashed_topic_key, Maps.delete hashed_topic_key topics)
]

abbrev create_at : ℕ → TopicConfig → Topics → Result String → Result String × Topics
create_at now cfg topics (err e) = (err e, topics)
create_at now cfg topics (ok key) = elim (lookup key topics) [
  | some _ ↦ (err doc_already_existed, topics)
  | none ↦ (ok key, insert key (stamped key now cfg) topics)
]

abbrev delete_at : Topics → Result String → Result String × Topics
unfolding delete_by_key
delete_at topics (err e) = (err e, topics)
delete_at topics (ok key) = delete_by_key key topics

module _ (platform : Platform) where
  unfoldable pub get_by_topic : String → String → Topics → Result TopicConfig
  unfolding get_by_key
  get_by_topic topic_full_name pulsar_url topics =
      get_key_from_names platform topic_full_name pulsar_url >>= λ key. get_by_key key topics

  unfoldable pub create : ℕ → TopicConfig → Topics → Result String × Topics
  create now cfg topics = create_at now cfg topics (get_key platform cfg)

  abbrev update_at : ℕ → TopicConfig → Topics → Result String → Result String × Topics
  unfolding create
  update_at now cfg topics (err e) = (err e, topics)
  update_at now cfg topics (ok key) = elim (lookup key topics) [
    | none ↦ create now cfg topics
    -- The changes to the copy `v` of the stored document are not written back: the caller's document
    -- is, under the key that it carries.
    | some v ↦ (ok key, insert cfg.key cfg topics)
  ]

  unfoldable pub update : ℕ → TopicConfig → Topics → Result String × Topics
  unfolding create
  update now cfg topics = update_at now cfg topics (get_key platform cfg)

  unfoldable pub delete : String → String → Topics → Result String × Topics
  unfolding delete_by_key
  delete topic_full_name pulsar_url topics =
      delete_at topics (get_key_from_names platform topic_full_name pulsar_url)

  abbrev pub in_memory : Crud Topics
  in_memory = record {
    get_by_topic = get_by_topic;
    get_by_key = get_by_key;
    update = update;
    create = create;
    delete = delete;
    delete_by_key = delete_by_key;
    load = load;
  }
