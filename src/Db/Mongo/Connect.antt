-- ===== src/Db/Mongo/Connect.antt =====
-- src/db/mongo.go: how the handler is made and closed. The MongoDB client is a parameter: each of its
-- calls gives an error or none, by their number.
use pulsar_beam.Prelude.{
  String, Bool, true, false, ◌≡◌, refl, Option, none, some, [], ◌∷◌, ℕ, if◌then◌else◌, ◌==◌, arith,
  eq_iff,
}
use pulsar_beam.Prelude.Maps.{lookup}
use pulsar_beam.Util.{assign_string}
use pulsar_beam.Util.Settings.{Fields, text_of}
use pulsar_beam.Db.Mongo.{index_key}

pub record Client : Type 0 where
  pub connect : String → Option String
  pub ping : ℕ → Option String
  -- of the database, the collection and the field
  pub create_unique_index : String → String → String → Option String
  pub disconnect : Option String

-- The variables of the package, which outlive a handler.
pub record Names : Type 0 where
  pub db_name : String
  pub connection_string : String

abbrev pub default_names : Names
default_names = record { db_name = "localhost"; connection_string = "mongodb://localhost:27017" }

abbrev pub collection_name : String
collection_name = "topics"

-- Whether the client and the collection are set.
pub record Connection : Type 0 where
  pub has_client : Bool
  pub collection : Option (String × String)

abbrev pub unconnected : Connection
unconnected = record { has_client = false; collection = none }

abbrev pub connected : Connection
connected = record { has_client = true; collection = none }

abbrev pub configured : Fields → Names → Names
unfolding assign_string lookup
configured fields names = record {
  db_name = assign_string (text_of (lookup "CLUSTER" fields) ∷ names.db_name ∷ []);
  connection_string =
      assign_string (text_of (lookup "DbConnectionStr" fields) ∷ names.connection_string ∷ []);
}

module _ (client : Client) where
  abbrev pub pinged : String → Option String → Connection × Option String
  pinged db (some e) = (connected, some e)
  pinged db none = (
    record { has_client = true; collection = some (db, collection_name) },
    client.create_unique_index db collection_name index_key,
  )

  abbrev pub opened : String → Option String → Connection × Option String
  unfolding pinged
  opened db (some e) = (unconnected, some e)
  opened db none = pinged db (client.ping 0)

  unfoldable pub init : Fields → Names → (Connection × Option String) × Names
  unfolding configured opened
  init fields names =
      let names' = configured fields names in
      (opened names'.db_name (client.connect names'.connection_string), names')

  unfoldable pub new_mongo_db : Fields → Names → (Connection × Option String) × Names
  unfolding init
  new_mongo_db fields names = init fields names

  -- The ping of `Health`, which is the call of that number.
  unfoldable pub health : ℕ → Bool
  health n = elim (client.ping n) [ none ↦ true | some e ↦ false ]

  unfoldable pub close : Option String
  close = client.disconnect

unfoldable pub sync : Option String
sync = none

-- What the names say after a start: a setting that is given, and what was there before where none is.
pub record IsStartedWith (client : Client) (fields : Fields) (names : Names)
    (x : (Connection × Option String) × Names) : Type 0 where
  pub named : x.1.db_name ≡ (
      if text_of (lookup "CLUSTER" fields) == ""
      then names.db_name
      else text_of (lookup "CLUSTER" fields))
  -- no error means that every call went well
  pub calls :
      x.0.1 ≡ none
      → (client.connect x.1.connection_string ≡ none)
        × (client.ping 0 ≡ none)
        × (client.create_unique_index x.1.db_name collection_name index_key ≡ none)
        × (x.0.0.collection ≡ some (x.1.db_name, collection_name))

first_of_two : (a b : String) → assign_string (a ∷ b ∷ []) ≡ (if a == "" then b else a)
unfolding assign_string
first_of_two a b = ground (arith, eq_iff b "")

module _ (client : Client) where
  pinged_fine :
      (db : String) (e : Option String)
      → client.ping 0 ≡ e
      → (pinged client db e).1 ≡ none
      → (client.ping 0 ≡ none)
        × (client.create_unique_index db collection_name index_key ≡ none)
        × ((pinged client db e).0.collection ≡ some (db, collection_name))
  pinged_fine db (some e) p h = cc
  pinged_fine db none p h = (p, h, refl)

  opened_fine :
      (names : Names) (e : Option String)
      → client.connect names.connection_string ≡ e
      → (opened client names.db_name e).1 ≡ none
      → (client.connect names.connection_string ≡ none)
        × (client.ping 0 ≡ none)
        × (client.create_unique_index names.db_name collection_name index_key ≡ none)
        × ((opened client names.db_name e).0.collection ≡ some (names.db_name, collection_name))
  unfolding opened
  opened_fine names (some e) c h = cc
  opened_fine names none c h =
      let (p, i, at) = pinged_fine names.db_name (client.ping 0) refl h in (c, p, i, at)

  -- A handler without an error has connected to the database that is configured, or else to the one
  -- before, has reached it, and has made the index on its collection.
  pub new_mongo_db-IsStartedWith :
      (fields : Fields) (names : Names)
      → IsStartedWith client fields names (new_mongo_db client fields names)
  unfolding new_mongo_db init configured assign_string
  new_mongo_db-IsStartedWith fields names = record {
    named = first_of_two (text_of (lookup "CLUSTER" fields)) names.db_name;
    calls = λ h.
        let names' = configured fields names in
        opened_fine names' (client.connect names'.connection_string) refl h;
  }
