-- ===== src/Tests/DriverTests.antt =====
-- src/pulsardriver at concrete inputs.
use pulsar_beam.Prelude.{
  Result, Bool-cases, inl, inr, ◌==◌, arith, eq_iff, suc, ◌-◌, true, false, Option, none, some, [],
  ◌∷◌, ok, ◌≡◌, refl, contains,
}
use pulsar_beam.Prelude.Int.{pos}
use pulsar_beam.Prelude.Maps.{lookup, insert}
use pulsar_beam.Strings.{has_prefix}
use pulsar_beam.Util.{string_to_bool}
use pulsar_beam.Model.Topic.{exclusive, earliest, get_subscription_type, get_initial_position}
use pulsar_beam.Driver.{
  Client, Consumer, producer_closed, Cluster, PulsarProducer, PulsarConsumer, Driver,
}
use pulsar_beam.Broker.Cancel.{Beam, run_beam}
use pulsar_beam.Broker.Cancel.Steps.{IsBacked}
use pulsar_beam.Broker.Cancel.Closing.{IsServed, run_beam-IsServed}
use pulsar_beam.Driver.Clients.{client_options, get_pulsar_client, get_client, new_pulsar_client}
use pulsar_beam.Driver.Clients.Sharing.{get_pulsar_client-shared}
use pulsar_beam.Driver.Clients.Life.{IsSound, held, get_pulsar_client-IsSound}
use pulsar_beam.Driver.Sending.{send_to_pulsar}
use pulsar_beam.Driver.Sending.Attempts.{IsCounted, send_to_pulsar-IsCounted}
use pulsar_beam.Driver.Consumers.{get_pulsar_consumer, get_consumer, cancel_pulsar_consumer}
use pulsar_beam.Driver.Consumers.Subscriptions.{IsSubscribed, get_pulsar_consumer-shared}
use pulsar_beam.Driver.Consumers.Cancelling.{
  IsCancelled, cancel_pulsar_consumer-IsCancelled, get_pulsar_consumer-failed,
}

-- A cluster that takes every client, no subscription, and no message.
abbrev cluster : Cluster
cluster = record {
  trust_store = "";
  allow_insecure_connection = "true";
  validate_hostname = "";
  send_retry_limit = pos 3;
  now = λ n. n;
  new_client = λ n options. none;
  create_producer = λ n client topic. none;
  subscribe = λ n client options. some "no such topic";
  send = λ n p payload. producer_closed "closed";
}

abbrev unused : PulsarProducer
unused = record { producer = none; pulsar_url = ""; token = ""; topic = "" }

abbrev pub idle : Driver
idle = record {
  client_cache = [];
  producer_cache = record { option_ttl = pos 100; items = []; callbacks = [] };
  producers = λ a. unused;
  allocated = 0;
  consumer_cache = [];
  calls = 0;
  closed = [];
}

abbrev first_client : Client
first_client = record {
  id = 0;
  options = record {
    url = "pulsar://a";
    authentication = some "bc";
    tls_trust_certs_file_path = none;
    tls_allow_insecure_connection = true;
    tls_validate_hostname = false;
  };
}

abbrev with_first : Driver
with_first = record idle {
  client_cache =
      (
        "pulsar://abc",
        record { client = some first_client; pulsar_url = "pulsar://a"; token = "bc" },
      )
      ∷ [];
  calls = 1;
}

unfoldable connecting : Unit {0}
unfolding get_pulsar_client get_client new_pulsar_client client_options lookup insert has_prefix
    string_to_bool
connecting = tt

first_test : get_pulsar_client cluster "pulsar://a" "bc" false idle ≡ (ok first_client, with_first)
unfolding connecting
first_test = refl

-- The second URL is another one.
get_pulsar_client-shared_example :
    (client_options cluster "pulsar://a" "bc" ≡ ok first_client.options)
    × (get_pulsar_client cluster "pulsar://ab" "c" false with_first ≡ (ok first_client, with_first))
unfolding connecting
get_pulsar_client-shared_example =
    get_pulsar_client-shared cluster "pulsar://a" "bc" "pulsar://ab" "c" false idle with_first
      first_client refl refl refl

idle-IsSound : IsSound idle
unfolding held lookup
idle-IsSound = record { live = λ key id h. cc; past = λ id h. cc; distinct = λ key other id h. cc }

get_pulsar_client-IsSound_example :
    IsSound with_first
    × ((client : Client)
        → ok first_client ≡ ok client
        → contains with_first.closed client.id ≡ false)
unfolding connecting
get_pulsar_client-IsSound_example =
    get_pulsar_client-IsSound cluster "pulsar://a" "bc" false idle with_first (ok first_client)
      idle-IsSound refl

send_to_pulsar-IsCounted_example :
    IsCounted
      (suc (3 - 0))
      (send_to_pulsar cluster "pulsar://a" "bc" "t" "hello" false 0 idle).0
      (send_to_pulsar cluster "pulsar://a" "bc" "t" "hello" false 0 idle).1
send_to_pulsar-IsCounted_example =
    send_to_pulsar-IsCounted cluster "pulsar://a" "bc" "t" "hello" false 0 idle

abbrev consumer : Consumer
consumer = record {
  id = 3;
  client = first_client;
  options = record {
    topic = "t";
    subscription_name = "billing";
    subscription_initial_position = earliest;
    subscription_type = exclusive;
  };
}

abbrev entry : Option Consumer → PulsarConsumer
entry c = record {
  consumer = c;
  pulsar_url = "pulsar://a";
  token = "bc";
  topic = "t";
  subscription_name = "billing";
  init_position = earliest;
  subscription_type = exclusive;
}

abbrev subscribed : Driver
subscribed = record with_first { consumer_cache = ("k", entry (some consumer)) ∷ []; calls = 4 }

subscribed-IsSubscribed : IsSubscribed subscribed "k" consumer
unfolding lookup
subscribed-IsSubscribed = record { entry = entry (some consumer); at_key = refl; held = refl }

-- The same with subscriptions.
abbrev pub serving : Cluster
serving = record cluster { subscribe = λ n client options. none }

abbrev billing : Result Consumer × Driver
unfolding get_pulsar_consumer get_consumer connecting get_subscription_type get_initial_position
billing =
    get_pulsar_consumer serving "pulsar://a" "bc" "t" "billing" "earliest" "exclusive" "k" idle

abbrev billing_consumer : Consumer
billing_consumer = record consumer { id = 1 }

billing_test : billing.0 ≡ ok billing_consumer
unfolding billing
billing_test = refl

get_pulsar_consumer-shared_example :
    get_pulsar_consumer serving "pulsar://b" "" "other" "audit" "latest" "no type" "k" billing.1
    ≡ (ok billing_consumer, billing.1)
unfolding billing
get_pulsar_consumer-shared_example =
    get_pulsar_consumer-shared serving "pulsar://a" "bc" "t" "billing" "earliest" "exclusive" "k"
      "pulsar://b" "" "other" "audit" "latest" "no type" idle billing.1 billing_consumer refl

cancel_pulsar_consumer-IsCancelled_test :
    (d' : Driver) × (cancel_pulsar_consumer "k" subscribed ≡ some d')
    × IsCancelled "k" consumer subscribed d'
cancel_pulsar_consumer-IsCancelled_test =
    cancel_pulsar_consumer-IsCancelled "k" subscribed consumer subscribed-IsSubscribed

abbrev refused : Driver
unfolding get_pulsar_consumer get_consumer connecting get_subscription_type get_initial_position
refused =
    (get_pulsar_consumer cluster "pulsar://a" "bc" "t" "billing" "earliest" "exclusive" "k" idle).1

get_pulsar_consumer-failed_example : cancel_pulsar_consumer "k" refused ≡ none
unfolding refused
get_pulsar_consumer-failed_example =
    get_pulsar_consumer-failed cluster "pulsar://a" "bc" "t" "billing" "earliest" "exclusive" "k"
      "no such topic" exclusive earliest idle refused refl refl refl refl

-- One webhook, with the consumer above behind it, and then no document wants it.
abbrev one_webhook : Beam
one_webhook = record {
  registry = record { webhooks = ("k", 0) ∷ []; closed = []; next = 1 };
  driver = subscribed;
}

one_webhook-IsBacked : IsBacked one_webhook
unfolding lookup
one_webhook-IsBacked = record {
  open_channels = record { is_open = λ key c h. refl };
  consumer = λ key c h. elim (Bool-cases ("k" == key)) [
    | inl same ↦
        let e : "k" ≡ key = ground (arith, eq_iff "k" key) in
        (consumer, rw (← e) subscribed-IsSubscribed)
    | inr differs ↦ cc (rw differs at h)
  ];
}

run_beam-IsServed_example :
    (b' : Beam) × ((run_beam [] one_webhook).1 ≡ some b') × IsServed [] one_webhook b'
run_beam-IsServed_example = run_beam-IsServed [] one_webhook one_webhook-IsBacked
