-- ===== src/Db/PulsarDb/Connect.antt =====
-- src/db/pulsardb.go: how the handler is made, before it has any document, and how it is closed.
use pulsar_beam.Prelude.{
  String, Bool, true, false, ◌≡◌, ◌≢◌, refl, Option, none, some, Result, ok, err, if◌then◌else◌,
}
use pulsar_beam.Prelude.Maps.{lookup}
use pulsar_beam.Strings.{has_prefix}
use pulsar_beam.Util.Settings.{Fields, text_of}
use pulsar_beam.Driver.{Client, Producer, Cluster, Driver, called, close_id}
use pulsar_beam.Driver.Clients.{new_pulsar_client}

-- The fields that a connection needs, and whether the goroutine of `Init` has been started.
pub record Connection : Type 0 where
  pub pulsar_url : String
  pub pulsar_token : String
  pub topic_name : String
  pub client : Option Client
  pub producer : Option Producer
  pub listens : Bool

abbrev pub connection_url : String → String → String
unfolding has_prefix
connection_url broker_url connection_str =
    if has_prefix connection_str "pulsar" then connection_str else broker_url

abbrev pub unconnected : Fields → Connection
unfolding lookup connection_url
unconnected fields = record {
  pulsar_url =
      connection_url (text_of (lookup "PulsarBrokerURL" fields))
        (text_of (lookup "DbConnectionStr" fields));
  pulsar_token = text_of (lookup "DbPassword" fields);
  topic_name = text_of (lookup "DbName" fields);
  client = none;
  producer = none;
  listens = false;
}

abbrev pub produced :
    Connection → Client → Driver → Option String → (Connection × Option String) × Driver
produced s client d (some e) = ((record s { client = some client }, some e), called d)
produced s client d none = (
  (
    record s {
      client = some client;
      producer = some (record { id = d.calls; client = client; topic = s.topic_name });
      listens = true;
    },
    none,
  ),
  called d,
)

module _ (cluster : Cluster) where
  -- `createProducer`, and what `Init` does behind it.
  unfoldable pub create_producer :
      Connection → Client → Driver → (Connection × Option String) × Driver
  unfolding produced
  create_producer s client d =
      produced s client d (cluster.create_producer d.calls client s.topic_name)

  abbrev pub with_client :
      Connection → Result Client × Driver → (Connection × Option String) × Driver
  unfolding create_producer
  with_client s (err e, d) = ((s, some e), d)
  with_client s (ok client, d) = create_producer s client d

  unfoldable pub init : Connection → Driver → (Connection × Option String) × Driver
  unfolding with_client new_pulsar_client
  init s d = with_client s (new_pulsar_client cluster s.pulsar_url s.pulsar_token d)

  -- The object is returned beside the error.
  unfoldable pub new_pulsar_handler : Fields → Driver → (Connection × Option String) × Driver
  unfolding init unconnected
  new_pulsar_handler fields d = init (unconnected fields) d

-- `Close`; without a producer it calls a method of nil, which is `none`. The client stays open.
unfoldable pub close : Connection → Driver → Option Driver
close s d = elim s.producer [ none ↦ none | some p ↦ some (close_id p.id d) ]

unfoldable pub sync : Connection → Option String
sync s = some "Unsupported since this is automatically sync-ed"

unfoldable pub health : Connection → Bool
health s = true

-- What a handler is like, by the error that came with it.
pub record IsConnected (s : Connection) (e : Option String) : Type 0 where
  pub listening : e ≡ none → s.listens ≡ true
  pub silent : e ≢ none → (s.listens ≡ false) × (s.producer ≡ none)
  pub closes :
      (d : Driver)
      → e ≡ none
      → (p : Producer) × (s.producer ≡ some p) × (close s d ≡ some (close_id p.id d))
  pub panics : (d : Driver) → e ≢ none → close s d ≡ none
  pub healthy : health s ≡ true

module _ (cluster : Cluster) where
  produced-IsConnected :
      (s : Connection) (client : Client) (d : Driver) (e : Option String)
      → s.listens ≡ false
      → s.producer ≡ none
      → IsConnected (produced s client d e).0.0 (produced s client d e).0.1
  unfolding close health
  produced-IsConnected s client d (some e) l p = record {
    listening = λ h. cc;
    silent = λ h. (l, p);
    closes = λ d' h. absurd (cc h);
    panics = λ d' h. rw p refl;
    healthy = refl;
  }
  produced-IsConnected s client d none l p = record {
    listening = λ h. refl;
    silent = λ h. absurd (h refl);
    closes = λ d' h. (_, refl, refl);
    panics = λ d' h. absurd (h refl);
    healthy = refl;
  }

  with_client-IsConnected :
      (s : Connection) (x : Result Client × Driver)
      → s.listens ≡ false
      → s.producer ≡ none
      → IsConnected (with_client cluster s x).0.0 (with_client cluster s x).0.1
  unfolding create_producer close health
  with_client-IsConnected s (err e, d) l p = record {
    listening = λ h. cc;
    silent = λ h. (l, p);
    closes = λ d' h. absurd (cc h);
    panics = λ d' h. rw p refl;
    healthy = refl;
  }
  with_client-IsConnected s (ok client, d) l p =
      produced-IsConnected s client d (cluster.create_producer d.calls client s.topic_name) l p

  -- A handler that comes without an error listens to its topic and can be closed. One that comes with
  -- an error does not listen, calls itself healthy all the same, and panics when it is closed.
  pub new_pulsar_handler-IsConnected :
      (fields : Fields) (d : Driver)
      → IsConnected
          (new_pulsar_handler cluster fields d).0.0
          (new_pulsar_handler cluster fields d).0.1
  unfolding new_pulsar_handler init
  new_pulsar_handler-IsConnected fields d = with_client-IsConnected (unconnected fields) _ refl refl
