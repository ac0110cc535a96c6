-- ===== src/Db/Mongo.antt =====
-- src/db/mongo.go: the driver over a MongoDB collection. The collection is a parameter: its state
-- is `S`, and each of its operations may fail.
pub mod Collections
pub mod Writes
pub mod Contract
pub mod Index
pub mod Connect
use pulsar_beam.Prelude.{
  ℕ, String, Bool, true, false, Option, none, some, List, [], ◌∷◌, Result, ok, err, ◌>>=◌, ltb,
  if◌then◌else◌, ◌==◌,
}
use pulsar_beam.Platform.{Platform}
use pulsar_beam.Model.Topic.{Status, WebhookConfig, TopicConfig, get_key_from_names}
use pulsar_beam.Db.{Crud, doc_not_found, get_key, stamped}

-- The fields that `Update` sets.
pub record Changes : Type 0 where
  pub token : String
  pub tenant : String
  pub notes : String
  pub topic_status : Status
  pub updated_at : ℕ
  pub webhooks : List WebhookConfig

-- What the driver calls of a collection; a filter is by the field "key".
pub record Collection (S : Type 0) : Type 0 where
  -- `FindOne` and `Decode`
  pub find_one : String → S → Result TopicConfig
  -- `Find`, and for each document that the cursor comes to what `Decode` gives
  pub find : S → Result (List (Result TopicConfig))
  pub insert_one : TopicConfig → S → Option String × S
  pub update_one : String → Changes → S → Option String × S
  -- how many were deleted
  pub delete_many : String → S → Result ℕ × S

abbrev pub no_documents : String
no_documents = "mongo: no documents in result"

-- The field of the unique index that `Init` creates.
abbrev pub index_key : String
index_key = "Key"

abbrev pub changes_of : ℕ → TopicConfig → Changes
changes_of now cfg = record {
  token = cfg.token;
  tenant = cfg.tenant;
  notes = cfg.notes;
  topic_status = cfg.topic_status;
  updated_at = now;
  webhooks = cfg.webhooks;
}

abbrev pub existing : Result TopicConfig → Result Bool
existing (ok doc) = ok true
existing (err e) = if e == no_documents then ok false else err e

abbrev pub decode_one : Result TopicConfig → Result TopicConfig
decode_one (ok doc) = ok doc
decode_one (err e) = if e == no_documents then err doc_not_found else err e

abbrev keep_decoded : List (Result TopicConfig) → List TopicConfig
keep_decoded [] = []
keep_decoded (ok doc ∷ docs) = doc ∷ keep_decoded docs
keep_decoded (err e ∷ docs) = keep_decoded docs

abbrev load_found : Result (List (Result TopicConfig)) → List TopicConfig × Option String
load_found (err e) = ([], some e)
load_found (ok docs) = (keep_decoded docs, none)

module _ {S : Type 0} (coll : Collection S) where
  unfoldable pub exists : String → S → Result Bool
  exists key s = existing (coll.find_one key s)

  unfoldable pub get_by_key : String → S → Result TopicConfig
  get_by_key hashed_topic_key s = decode_one (coll.find_one hashed_topic_key s)

  unfoldable pub load : S → List TopicConfig × Option String
  load s = load_found (coll.find s)

  abbrev pub inserted : String → Option String × S → Result String × S
  inserted key (none, s) = (ok key, s)
  inserted key (some e, s) = (err e, s)

  abbrev pub create_at : ℕ → TopicConfig → S → Result String → Result String × S
  create_at now cfg s (err e) = (err e, s)
  create_at now cfg s (ok key) = inserted key (coll.insert_one (stamped key now cfg) s)

  abbrev pub removed : String → Result ℕ × S → Result String × S
  removed key (err e, s) = (err e, s)
  removed key (ok count, s) =
      (if ltb 1 count then err "many documents match the same key" else ok key, s)

  abbrev pub delete_if : String → S → Result Bool → Result String × S
  delete_if key s (ok true) = removed key (coll.delete_many key s)
  delete_if key s (ok false) = (err "topic does not exist", s)
  delete_if key s (err e) = (err "topic does not exist", s)

  unfoldable pub delete_by_key : String → S → Result String × S
  unfolding exists
  delete_by_key hashed_topic_key s = delete_if hashed_topic_key s (exists hashed_topic_key s)

  abbrev delete_at : S → Result String → Result String × S
  delete_at s (err e) = (err e, s)
  delete_at s (ok key) = delete_by_key key s

  module _ (platform : Platform) where
    unfoldable pub create : ℕ → TopicConfig → S → Result String × S
    create now cfg s = create_at now cfg s (get_key platform cfg)

    abbrev pub update_if : ℕ → TopicConfig → String → S → Result Bool → Result String × S
    update_if now cfg key s (err e) = (err e, s)
    update_if now cfg key s (ok false) = create now cfg s
    update_if now cfg key s (ok true) = inserted key (coll.update_one key (changes_of now cfg) s)

    abbrev pub update_at : ℕ → TopicConfig → S → Result String → Result String × S
    update_at now cfg s (err e) = (err e, s)
    update_at now cfg s (ok key) = update_if now cfg key s (exists key s)

    unfoldable pub update : ℕ → TopicConfig → S → Result String × S
    unfolding exists create
    update now cfg s = update_at now cfg s (get_key platform cfg)

    unfoldable pub get_by_topic : String → String → S → Result TopicConfig
    unfolding get_by_key
    get_by_topic topic_full_name pulsar_url s =
        get_key_from_names platform topic_full_name pulsar_url >>= λ key. get_by_key key s

    unfoldable pub delete : String → String → S → Result String × S
    unfolding delete_by_key
    delete topic_full_name pulsar_url s =
        delete_at s (get_key_from_names platform topic_full_name pulsar_url)

    abbrev pub mongo_db : Crud S
    mongo_db = record {
      get_by_topic = get_by_topic;
      get_by_key = get_by_key;
      update = update;
      create = create;
      delete = delete;
      delete_by_key = delete_by_key;
      load = load;
    }
