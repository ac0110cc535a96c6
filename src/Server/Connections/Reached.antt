-- ===== src/Server/Connections/Reached.antt =====
-- The three drivers of src/db behind a process.
use pulsar_beam.Prelude.{String, true, Option, none, some, [], ◌≡◌, refl, sym, ◌∙◌}
use pulsar_beam.Util.Settings.{Fields}
use pulsar_beam.Driver.{Cluster, Driver, Producer}
use pulsar_beam.Db.InMemory as Memory
use pulsar_beam.Db.InMemory.{Topics}
use pulsar_beam.Db.Factory.{Drivers}
use pulsar_beam.Db.PulsarDb.Connect as Pulsar
use pulsar_beam.Db.PulsarDb.Connect.{
  new_pulsar_handler, IsConnected, new_pulsar_handler-IsConnected,
}
use pulsar_beam.Db.Mongo.Connect as Mongo
use pulsar_beam.Db.Mongo.Connect.{
  Names, new_mongo_db, IsStartedWith, new_mongo_db-IsStartedWith, collection_name,
}
use pulsar_beam.Server.{World, Http, Webhooks, main, serving}
use pulsar_beam.Server.Databases.{main-shared}
use pulsar_beam.Server.Connections.{IsReliable, main-Reaches}

-- What the driver that is chosen has made.
pub data Database : Type 0 where
  mongo : Mongo.Connection → Database
  pulsar : Pulsar.Connection → Database
  memory : Topics → Database

-- The services that the drivers reach, and the state of their packages when the process starts.
pub record Services : Type 0 where
  pub cluster : Cluster
  pub mongo_client : Mongo.Client
  pub names : Names
  pub driver : Driver

module _ (services : Services) where
  unfoldable pub drivers_of : Fields → Drivers Database
  unfolding new_mongo_db new_pulsar_handler Memory.new_in_memory_handler
  drivers_of fields =
      let ((m, e), names) = new_mongo_db services.mongo_client fields services.names in
      let ((p, e'), d) = new_pulsar_handler services.cluster fields services.driver in
      let (t, e'') = Memory.new_in_memory_handler in
      record {
        new_mongo_db = (mongo m, e);
        new_pulsar_handler = (pulsar p, e');
        new_in_memory_handler = (memory t, e'');
      }

  -- What a database has to be like for a server to run on it: its collection is set and has been
  -- reached, or it listens to its topic and has a producer, or it is empty.
  abbrev pub IsReached : Database → Type 0
  IsReached (mongo m) =
      (db : String) × (m.collection ≡ some (db, collection_name))
      × (services.mongo_client.ping 0 ≡ none)
  IsReached (pulsar p) = (p.listens ≡ true) × ((producer : Producer) × (p.producer ≡ some producer))
  IsReached (memory t) = t ≡ []

  mongo-IsReached :
      (fields : Fields) (d : Database) → (drivers_of fields).new_mongo_db ≡ (d, none) → IsReached d
  unfolding drivers_of
  mongo-IsReached fields d h =
      let x = new_mongo_db services.mongo_client fields services.names in
      let fine : x.0.1 ≡ none = cc in
      let same : mongo x.0.0 ≡ d = cc in
      let (_, pinged, _, at) =
        (new_mongo_db-IsStartedWith services.mongo_client fields services.names).calls fine in
      rw (← same) (x.1.db_name, at, pinged)

  pulsar-IsReached :
      (fields : Fields) (d : Database)
      → (drivers_of fields).new_pulsar_handler ≡ (d, none)
      → IsReached d
  unfolding drivers_of
  pulsar-IsReached fields d h =
      let x = new_pulsar_handler services.cluster fields services.driver in
      let fine : x.0.1 ≡ none = cc in
      let same : pulsar x.0.0 ≡ d = cc in
      let like = new_pulsar_handler-IsConnected services.cluster fields services.driver in
      let (producer, at, _) = like.closes services.driver fine in
      rw (← same) (like.listening fine, (producer, at))

  memory-IsReached :
      (fields : Fields) (d : Database)
      → (drivers_of fields).new_in_memory_handler ≡ (d, none)
      → IsReached d
  unfolding drivers_of Memory.init
  memory-IsReached fields d h = let same : memory Memory.init ≡ d = cc in rw (← same) refl

  drivers_of-IsReliable : (fields : Fields) → IsReliable IsReached (drivers_of fields)
  drivers_of-IsReliable fields = record {
    mongo = mongo-IsReached fields;
    pulsar = pulsar-IsReached fields;
    memory = memory-IsReached fields;
  }

  -- A process with these drivers.
  unfoldable pub with_drivers : World Database → World Database
  unfolding drivers_of
  with_drivers w = record w { drivers = drivers_of }

  pub record IsRunnable (hooks : Option (Webhooks Database)) (h : Http Database) : Type 0 where
    pub database : Database
    pub at_server : h.database ≡ some database
    pub at_broker : (b : Webhooks Database) → hooks ≡ some b → b.database ≡ some database
    pub reached : IsReached database

  -- If a process serves, then on a database that has been reached: a MongoDB collection whose server
  -- has answered, a Pulsar topic that is listened to and can be written, or an empty table in memory.
  -- The webhook broker, if it runs too, has the same one.
  pub main-IsRunnable :
      (w : World Database) (hooks : Option (Webhooks Database)) (h : Http Database)
      → main (with_drivers w) ≡ serving hooks h
      → IsRunnable hooks h
  unfolding with_drivers
  main-IsRunnable w hooks h e =
      let serves = main-Reaches IsReached (with_drivers w) drivers_of-IsReliable hooks h e in
      record {
        database = serves.database;
        at_server = serves.is_some;
        at_broker = λ b q. sym (main-shared (with_drivers w) b h (rw q at e)) ∙ serves.is_some;
        reached = serves.has_property;
      }
