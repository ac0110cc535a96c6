-- ===== src/Db.antt =====
-- src/db: the database of topic documents. `Crud` is the interface that the handlers and the webhook
-- broker use, over the state `S` of a driver; a method that writes returns the new state beside its
-- result.
pub mod InMemory
pub mod PulsarDb
pub mod Mongo
pub mod Contract
pub mod Factory
use pulsar_beam.Prelude.{
  ℕ, String, Option, none, some, List, [], ◌∷◌, ◌++◌, map, nat_eq, Result, ok, err, if◌then◌else◌,
}
use pulsar_beam.Prelude.Maps.{Map, lookup}
use pulsar_beam.Platform.{Platform}
use pulsar_beam.Model.Topic.{deactivated, TopicConfig, get_key_from_names}

abbrev pub doc_not_found : String
doc_not_found = "no document found"

abbrev pub doc_already_existed : String
doc_already_existed = "document already existed"

pub record Crud (S : Type 0) : Type 0 where
  pub get_by_topic : String → String → S → Result TopicConfig
  pub get_by_key : String → S → Result TopicConfig
  -- the clock is the first argument
  pub update : ℕ → TopicConfig → S → Result String × S
  pub create : ℕ → TopicConfig → S → Result String × S
  pub delete : String → String → S → Result String × S
  pub delete_by_key : String → S → Result String × S
  -- the list, and the error beside it
  pub load : S → List TopicConfig × Option String

-- `getKey` of src/db/mongo.go.
unfoldable pub get_key : Platform → TopicConfig → Result String
get_key platform cfg = get_key_from_names platform cfg.topic_full_name cfg.pulsar_url

abbrev pub found_doc : Option TopicConfig → Result TopicConfig
found_doc none = err doc_not_found
found_doc (some v) = ok v

-- The document that `Create` files.
abbrev pub stamped : String → ℕ → TopicConfig → TopicConfig
stamped key now cfg = record cfg { key = key; created_at = now; updated_at = now }

-- The variables that a loop over documents puts on the heap, by their addresses. A new one holds the
-- zero value.
abbrev pub Heap : Type 0
Heap = ℕ → TopicConfig

abbrev pub zero_doc : TopicConfig
zero_doc = record {
  topic_full_name = "";
  pulsar_url = "";
  token = "";
  tenant = "";
  key = "";
  notes = "";
  topic_status = deactivated;
  webhooks = [];
  created_at = 0;
  updated_at = 0;
}

abbrev pub assign : ℕ → TopicConfig → Heap → Heap
assign address v heap other = if nat_eq address other then v else heap other

-- `for _, v := range topics { results = append(results, &v) }`, where `v` is one variable for the
-- whole loop: each turn assigns to it and appends its address.
unfoldable pub append_topics : ℕ → Map TopicConfig → List ℕ → Heap → List ℕ × Heap
append_topics v [] results heap = (results, heap)
append_topics v ((_, doc) ∷ topics) results heap =
    append_topics v topics (results ++ v ∷ []) (assign v doc heap)

abbrev pub dereferenced : List ℕ × Heap → List TopicConfig
dereferenced (results, heap) = map heap results

-- The list as its caller reads it.
unfoldable pub load_topics : Map TopicConfig → List TopicConfig
unfolding append_topics
load_topics topics = dereferenced (append_topics 0 topics [] (λ address. zero_doc))
