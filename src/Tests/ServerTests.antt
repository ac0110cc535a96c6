-- ===== src/Tests/ServerTests.antt =====
-- A whole process at concrete inputs: how it starts, what its router refuses, and what its workers and
-- listeners do with what they are given.
use pulsar_beam.Prelude.{
  false, ℕ, String, true, Option, none, some, List, [], ◌∷◌, ok, err, ◌≡◌, ◌≢◌, ◌↔◌, ◌⊎◌, refl, Any,
  here, there, inl, inr, Bool-cases, ◌==◌, arith, if◌then◌else◌,
}
use pulsar_beam.Prelude.Int.{pos}
use pulsar_beam.Strings.{trim_space}
use pulsar_beam.Server.{World, Fate, Webhooks, Http, main, ended, serving, every}
use pulsar_beam.Server.Fates.{IsPadded, main-ended_iff}
use pulsar_beam.Server.Databases.{main-shared}
use pulsar_beam.Server.Connections.Reached.{
  Database, memory, Services, drivers_of, with_drivers, IsRunnable, main-IsRunnable,
}
use pulsar_beam.Db.Mongo.Connect.{default_names}
use pulsar_beam.Tests.DriverTests.{idle}
use pulsar_beam.Tests.DriverTests
use pulsar_beam.Middleware.{Sema}
use pulsar_beam.Middleware.Authentication.{granted}
use pulsar_beam.Route.Http.{Request, fresh, http_error}
use pulsar_beam.Route.Router.{Entry, Handlers, Mux, new_router, serve_http}
use pulsar_beam.Route.Router.Gates.{IsMux, serve_http-refused}
use pulsar_beam.Broker.Consume.{reconnected, nothing, received, waiting, consume_from}
use pulsar_beam.Broker.Consume.Ends.{errors, is_silent, consume_from-ends}
use pulsar_beam.Model.Topic.{TopicConfig}
use pulsar_beam.Db.PulsarDb.{read, no_reader, recover}
use pulsar_beam.Db.PulsarDb.Restarts.{IsFirst, recover-IsFirst}
use pulsar_beam.Route.Receive.Pool
use pulsar_beam.Route.Receive.Pool.{
  Pool, Message, message_of, async, serve, serves, sends, send_pending,
}
use pulsar_beam.Route.Receive.Pool.Buffers.{IsIntact, Reach-IsIntact, send_pending-spoiled}
use pulsar_beam.Tests.Samples.{config, ask, msg, orders, keyed}
use pulsar_beam.Tests.BrokerTests.{web}

abbrev world : String → World String
world mode = record {
  env = ("ProcessMode", mode) ∷ ("PbDbType", "inmemory") ∷ [];
  files = record {
    read_file = λ name. ok "PORT: 8080";
    unmarshal_json = λ bytes fields. err "no JSON";
    unmarshal_yaml = λ bytes fields. ok fields;
  };
  agent = none;
  key_library = record {
    read_file = λ file. ok (48 ∷ 130 ∷ 2 ∷ 0 ∷ []);
    pem_decode = λ bytes. none;
    parse_pkcs8_private_key = λ bytes. ok (some bytes);
    parse_pkix_public_key = λ bytes. ok (some bytes);
  };
  flag_exit = none;
  parse_duration = λ s. some (pos 180);
  drivers = λ fields. record {
    new_mongo_db = ("mongo", some "no server");
    new_pulsar_handler = ("pulsar", some "no broker");
    new_in_memory_handler = ("memory", none);
  };
}

main_padded_test : main (world " broker") ≡ ended
unfolding main trim_space
main_padded_test = refl

main-ended_iff_example : (main (world " broker") ≡ ended) ↔ IsPadded (world " broker")
main-ended_iff_example = main-ended_iff (world " broker")

abbrev hooks : Webhooks String
hooks = record { database = some "memory"; timer = every 180 }

main-shared_test :
    (h : Http String) → main (world "hybrid") ≡ serving (some hooks) h → h.database ≡ some "memory"
main-shared_test h = main-shared (world "hybrid") hooks h

main_memory_test : (h : Http String) × (main (world "hybrid") ≡ serving (some hooks) h)
unfolding main trim_space
main_memory_test = (_, refl)

abbrev handlers : Handlers ℕ
handlers = record {
  config = config;
  token_subject = λ s. err "no token";
  handler_func = λ h r s. (fresh, 1);
  profile = λ path r s. (fresh, s);
}

abbrev fitting : List (Entry ℕ) → Request → Option (Entry ℕ)
fitting [] r = none
fitting (entry ∷ entries) r =
    let rest = fitting entries r in if entry.path == r.request_uri then some entry else rest

abbrev mux : Mux ℕ
mux = record {
  matched = fitting;
  unmatched = λ r s. (http_error "404 page not found" 404 fresh, s);
}

fitting_among :
    (entries : List (Entry ℕ)) (r : Request) (entry : Entry ℕ)
    → fitting entries r ≡ some entry
    → Any (λ e. e ≡ entry) entries
fitting_among [] r entry h = cc
fitting_among (first ∷ entries) r entry h = elim (Bool-cases (first.path == r.request_uri)) [
  | inl fits ↦ let same : first ≡ entry = cc (rw fits at h) in here same
  | inr not ↦ there (fitting_among entries r entry (rw not at h))
]

mux-IsMux : IsMux handlers mux
mux-IsMux = record { matched = fitting_among }

abbrev topic_request : Request
topic_request = record (ask "admin") { request_uri = "/v2/topic" }

abbrev limit : Sema
limit = record { size = 1; ch = 0 }

serve_http-refused_example :
    (sema : Sema) × ((serve_http handlers mux "rest" topic_request 0 limit
        ≡ (http_error "Unauthorized" 401 fresh, 0, sema))
      ⊎ (serve_http handlers mux "rest" topic_request 0 limit
          ≡ (http_error "Too many requests" 429 fresh, 0, sema)))
unfolding new_router granted
serve_http-refused_example =
    serve_http-refused handlers mux "rest" topic_request 0 limit _ "no token" mux-IsMux refl refl
      refl

-- The profiles are served without a token.
profile_test :
    serve_http handlers mux "rest"
      (record topic_request { request_uri = "/debug/pprof/profile" })
      0
      limit
    ≡ (fresh, 0, limit)
unfolding serve_http
profile_test = refl

consume_from-ends_example :
    (consume_from web "hook.example" 0 []
      (received (msg "a") ∷ reconnected ∷ reconnected ∷ nothing ∷ reconnected ∷ reconnected ∷ [])).1
    ≢ waiting
unfolding errors is_silent
consume_from-ends_example =
    consume_from-ends web "hook.example" 0 [] (received (msg "a") ∷ [])
      (reconnected ∷ reconnected ∷ nothing ∷ reconnected ∷ reconnected ∷ []) refl (omega arith)

-- The second document of the topic is never applied.
recover-IsFirst_example : IsFirst orders [] true (
    recover {P = TopicConfig}
      (λ d. some d)
      (no_reader "not yet" ∷ read (orders ∷ []) ∷ read (orders ∷ keyed ∷ []) ∷ [])
      [])
recover-IsFirst_example =
    recover-IsFirst (λ d. some d) orders
      (no_reader "not yet" ∷ read (orders ∷ []) ∷ read (orders ∷ keyed ∷ []) ∷ []) []
      (tt, (refl, (refl, tt)))

abbrev resting : Pool ℕ
resting = record { buffers = λ w. []; pending = []; sent = [] }

abbrev pending_one : Message ℕ
pending_one = record { worker = 0; size = 2; payload = 1 ∷ 2 ∷ [] }

-- Two workers, each with a message that the library sends later.
Reach-IsIntact_example :
    IsIntact
      (send_pending pending_one (serve async 1 (3 ∷ []) (serve async 0 (1 ∷ 2 ∷ []) resting)))
unfolding serve
Reach-IsIntact_example =
    Reach-IsIntact 2 resting
      (send_pending pending_one (serve async 1 (3 ∷ []) (serve async 0 (1 ∷ 2 ∷ []) resting)))
      (record { waiting = tt; gone = tt })
      (pulsar_beam.Route.Receive.Pool.next
        (pulsar_beam.Route.Receive.Pool.next
          (pulsar_beam.Route.Receive.Pool.next pulsar_beam.Route.Receive.Pool.here
            (serves async 0 (1 ∷ 2 ∷ []) (omega arith) tt refl))
          (serves async 1 (3 ∷ []) (omega arith) (refl, tt) refl))
        (sends (message_of 1 (3 ∷ []) ∷ []) [] pending_one refl refl))

-- One worker, with two messages.
send_pending-spoiled_example :
    (send_pending pending_one
      (serve async 0 (8 ∷ 9 ∷ 7 ∷ []) (serve async 0 (1 ∷ 2 ∷ []) resting))).sent
    ≡ (pending_one, 8 ∷ 9 ∷ []) ∷ []
unfolding serve
send_pending-spoiled_example =
    send_pending-spoiled async (8 ∷ 9 ∷ 7 ∷ []) (serve async 0 (1 ∷ 2 ∷ []) resting) pending_one
      (omega arith)

abbrev services : Services
services = record {
  cluster = DriverTests.serving;
  mongo_client = record {
    connect = λ s. none;
    ping = λ n. none;
    create_unique_index = λ db c f. none;
    disconnect = none;
  };
  names = default_names;
  driver = idle;
}

abbrev any_world : String → World Database
any_world type = record {
  env = ("PbDbType", type) ∷ [];
  files = (world "").files;
  agent = none;
  key_library = record {
    read_file = λ file. ok (48 ∷ 130 ∷ 2 ∷ 0 ∷ []);
    pem_decode = λ bytes. none;
    parse_pkcs8_private_key = λ bytes. ok (some bytes);
    parse_pkix_public_key = λ bytes. ok (some bytes);
  };
  flag_exit = none;
  parse_duration = λ s. some (pos 180);
  drivers = λ fields. record {
    new_mongo_db = (memory [], none);
    new_pulsar_handler = (memory [], none);
    new_in_memory_handler = (memory [], none);
  };
}

abbrev hooks_of : Fate Database → Option (Webhooks Database)
hooks_of (serving b h) = b
hooks_of _ = none

abbrev http_of : Fate Database → Http Database
http_of (serving b h) = h
http_of _ = record { database = none; worker_pool = 0; routes = []; address = ""; tls = false }

abbrev hybrid_fate : Fate Database
unfolding main trim_space with_drivers drivers_of
hybrid_fate = main (with_drivers services (any_world "pulsarAsDb"))

main-IsRunnable_example : IsRunnable services (hooks_of hybrid_fate) (http_of hybrid_fate)
unfolding hybrid_fate
main-IsRunnable_example =
    main-IsRunnable services (any_world "pulsarAsDb") (hooks_of hybrid_fate) (http_of hybrid_fate)
      refl
