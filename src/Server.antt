-- ===== src/Server.antt =====
-- src/main.go, with `Init` of src/broker/webhook.go and of src/route/handlers.go: what a process
-- starts, and how it ends.
pub mod Fates
pub mod Databases
pub mod Connections
use pulsar_beam.Prelude.{
  ℕ, zero, suc, String, Bool, true, false, Option, none, some, List, [], ◌∷◌, Result, if◌then◌else◌,
}
use pulsar_beam.Prelude.Int.{ℤ, pos, negsuc}
use pulsar_beam.Prelude.Maps.{Map, lookup}
use pulsar_beam.Strings.{◌<>◌}
use pulsar_beam.Util.{
  Configuration, assign_string, is_broker_required, is_http_router_required, is_broker,
  is_valid_mode, hybrid,
}
use pulsar_beam.Util.Settings.{Field, text, number, Fields, Files, get_config, text_of, init_config}
use pulsar_beam.Util.Certs.{is_tls}
use pulsar_beam.Db.Factory.{Drivers, Started, started, exited, new_db_with_panic}
use pulsar_beam.Crypto.{Bytes}
use pulsar_beam.Crypto.KeyFiles
use pulsar_beam.Crypto.KeyFiles.{KeyLibrary, Loaded, loaded, RsaKeyPair, new_rsa_key_pair}
use pulsar_beam.Route.Tables.{Route, get_effective_routes}

-- What the process finds: the environment, the files, the error of the agent that debugs it,
-- the library that reads the files of the keys, the code with which `flag.Parse` ends the process, if
-- it does, `time.ParseDuration` in nanoseconds, and the drivers of the databases, which read the
-- configuration. A key is known by the bytes of its encoding.
pub record World (Db : Type 0) : Type 0 where
  pub env : Map String
  pub files : Files
  pub agent : Option String
  pub key_library : KeyLibrary Bytes Bytes
  pub flag_exit : Option ℕ
  pub parse_duration : String → Option ℤ
  pub drivers : Fields → Drivers Db

-- The timer of the broker, behind the first run. `NewTicker` panics unless the time is positive.
pub data Timer : Type 0 where
  every : ℕ → Timer
  no_ticker : Timer

-- The pool of the receiver: a channel cannot be made with a negative size.
pub data WorkerPool : Type 0 where
  workers : ℕ → WorkerPool
  no_channel : WorkerPool

pub record Http (Db : Type 0) : Type 0 where
  pub database : Option Db
  pub worker_pool : ℕ
  pub routes : List Route
  pub address : String
  pub tls : Bool

pub record Webhooks (Db : Type 0) : Type 0 where
  pub database : Option Db
  pub timer : Timer

-- A panic, an end by `log.Fatal`, one by `flag.Parse` with its code, which is 0 for `-h`, the return of
-- `main`, the loop that waits, and the server. The last two say what has been started.
pub data Fate (Db : Type 0) : Type 0 where
  panicked : String → Fate Db
  fatal : Fate Db
  left : ℕ → Fate Db
  ended : Fate Db
  looping : Option (Webhooks Db) → Fate Db
  serving : Option (Webhooks Db) → Http Db → Fate Db

abbrev pub env_text : Option String → String
env_text none = ""
env_text (some v) = v

abbrev pub getenv : String → Map String → String
unfolding lookup
getenv name env = env_text (lookup name env)

-- The variable `mode`. The flag is read before it is parsed, so that it has its default.
unfoldable pub process_mode : Map String → String
unfolding assign_string getenv
process_mode env = assign_string (getenv "ProcessMode" env ∷ hybrid ∷ [])

abbrev pub timer_of : Option ℤ → Timer
timer_of (some (pos (suc n))) = every (suc n)
timer_of (some (pos zero)) = no_ticker
timer_of (some (negsuc n)) = no_ticker
timer_of none = no_ticker

abbrev pub or_default : Option ℤ → Option ℤ → Option ℤ
or_default none d = d
or_default (some t) d = some t

abbrev pub pool_of : Option Field → WorkerPool
pool_of (some (number (pos n))) = workers n
pool_of (some (number (negsuc n))) = no_channel
pool_of (some (text v)) = workers 0
pool_of none = workers 0

module _ {Db : Type 0} (w : World Db) where
  -- The interval of `broker.Init`.
  unfoldable pub interval : Fields → Timer
  unfolding assign_string get_config
  interval fields = timer_of (
      or_default
        (w.parse_duration (assign_string ((get_config fields).pb_db_interval ∷ "180s" ∷ [])))
        (w.parse_duration "180s"))

  abbrev pub port : Fields → String
  unfolding assign_string lookup
  port fields = assign_string (text_of (lookup "PORT" fields) ∷ "8085" ∷ [])

  abbrev pub http_with : String → Fields → Option Db → ℕ → Http Db
  unfolding is_tls port lookup get_effective_routes
  http_with mode fields db n = record {
    database = db;
    worker_pool = n;
    routes = get_effective_routes mode;
    address = ":" <> port fields;
    tls = is_tls (text_of (lookup "CertFile" fields)) (text_of (lookup "KeyFile" fields));
  }

  abbrev pub pooled : String → Fields → Option (Webhooks Db) → Option Db → WorkerPool → Fate Db
  unfolding http_with
  pooled mode fields hooks db (workers n) = serving hooks (http_with mode fields db n)
  pooled mode fields hooks db no_channel = panicked "makechan: size out of range"

  abbrev pub routed : String → Fields → Option (Webhooks Db) → Started Db × Option Db → Fate Db
  unfolding pooled lookup
  routed mode fields hooks (exited, conn) = fatal
  routed mode fields hooks (started db, conn) =
      pooled mode fields hooks db (pool_of (lookup "WorkerPoolSize" fields))

  -- `main` behind the start of the broker: the server, or the loop, or the end.
  unfoldable pub serve : String → Fields → Option (Webhooks Db) → Option Db → Fate Db
  unfolding routed new_db_with_panic is_http_router_required is_broker get_config
  serve mode fields hooks conn =
      if is_http_router_required mode
      then routed mode fields hooks
          (new_db_with_panic (w.drivers fields) (get_config fields).pb_db_type conn)
      else if is_broker mode
      then looping hooks
      else ended

  abbrev pub with_broker : String → Fields → Started Db × Option Db → Fate Db
  unfolding serve interval
  with_broker mode fields (exited, conn) = fatal
  with_broker mode fields (started db, conn) =
      serve mode fields (some (record { database = db; timer = interval fields })) conn

  -- `main` behind `flag.Parse`.
  abbrev pub checked : String → Fields → Fate Db
  unfolding with_broker is_valid_mode is_broker_required new_db_with_panic get_config serve
  checked mode fields =
      if is_valid_mode mode
      then if is_broker_required mode
        then with_broker mode fields
            (new_db_with_panic (w.drivers fields) (get_config fields).pb_db_type none)
        else serve mode fields none none
      else panicked "Unsupported server mode"

  abbrev pub parsed : String → Fields → Option ℕ → Fate Db
  unfolding checked
  parsed mode fields (some code) = left code
  parsed mode fields none = checked mode fields

  abbrev pub keyed : String → Fields → Loaded (RsaKeyPair Bytes Bytes) → Fate Db
  unfolding parsed
  keyed mode fields (loaded pair) = parsed mode fields w.flag_exit
  keyed mode fields KeyFiles.panicked = panicked "key pair"
  keyed mode fields KeyFiles.exited = fatal

  -- The end of `util.Init`, where no key pair has been loaded before.
  abbrev pub key_pair : Fields → Loaded (RsaKeyPair Bytes Bytes)
  unfolding new_rsa_key_pair lookup
  key_pair fields =
      (new_rsa_key_pair w.key_library (text_of (lookup "PulsarPrivateKey" fields))
        (text_of (lookup "PulsarPublicKey" fields)) none).0

  abbrev pub configured : String → Option (Fields × Map String) → Fate Db
  unfolding keyed key_pair
  configured mode none = panicked "configuration"
  configured mode (some (fields, env)) = keyed mode fields (key_pair fields)

  abbrev pub instrumented : Option String → Fate Db
  unfolding configured init_config process_mode getenv
  instrumented (some e) = panicked ("gops instrument error " <> e)
  instrumented none =
      configured (process_mode w.env)
        (init_config w.files (getenv "PULSAR_BEAM_CONFIG" w.env) w.env)

  unfoldable pub main : Fate Db
  unfolding instrumented
  main = instrumented w.agent
