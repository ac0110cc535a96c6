-- ===== src/Tests/Samples.antt =====
-- The data of the tests: a platform whose digest is the text itself, and some documents.
use pulsar_beam.Broker.Poll.{Pulsar}
use pulsar_beam.Model.Message.{Message}
use pulsar_beam.Db.Contract.{IsKeyed}
use pulsar_beam.Db.InMemory.{Topics}
use pulsar_beam.Db.{stamped}
use pulsar_beam.Prelude.Maps.{lookup}
use pulsar_beam.Prelude.{String, none, some, [], ◌∷◌, ok, arith, eq_iff}
use pulsar_beam.Platform.{Platform}
use pulsar_beam.Model.Topic.{WebhookConfig, TopicConfig, activated}
use pulsar_beam.Util.{Configuration}
use pulsar_beam.Db.PulsarDb.{Broker}
use pulsar_beam.Route.Http.{Coder, Server, decoded, Request}

abbrev pub plain : Platform
plain = record { sha1_hex = λ s. s; parse_url = λ s. some ("http", s) }

abbrev pub hook : String → WebhookConfig
hook name = record {
  url = "hook.example";
  headers = [];
  subscription = name;
  subscription_type = "Exclusive";
  initial_position = "";
  webhook_status = activated;
  created_at = 0;
  updated_at = 0;
  deleted_at = 0;
}

abbrev pub orders : TopicConfig
orders = record {
  topic_full_name = "persistent://acme/ns/orders";
  pulsar_url = "pulsar://broker:6650";
  token = "";
  tenant = "acme";
  key = "";
  notes = "";
  topic_status = activated;
  webhooks = hook "billing" ∷ hook "audit" ∷ [];
  created_at = 0;
  updated_at = 0;
}

abbrev pub orders_key : String
orders_key = "persistent://acme/ns/orderspulsar://broker:6650"

abbrev pub keyed : TopicConfig
keyed = record orders { key = orders_key }

abbrev pub config : Configuration
config = record {
  pb_db_type = "inmemory";
  pb_db_interval = "";
  super_roles = "superuser, admin";
  pulsar_broker_url = "pulsar://broker:6650";
  pulsar_clusters = "pulsar://other:6650";
  http_auth_impl = "";
  pulsar_token_header_name = "Authorization";
}

-- Documents as messages, and a broker that takes every message.
abbrev pub broker : Broker TopicConfig
broker = record {
  marshal = λ doc. ok doc;
  unmarshal = λ doc. some doc;
  send_error = λ sent msg. none;
}

-- A coder that reads one document from every body.
abbrev pub coder : Coder
coder = record {
  encode_doc = λ doc. ok doc.topic_full_name;
  encode_text = λ s. ok s;
  encode_error = λ s. s;
  encode_token = λ s t. ok t;
  decode_doc = λ s. decoded keyed;
  decode_key = λ s. decoded (record {
    topic_full_name = "persistent://acme/ns/orders";
    pulsar_url = "pulsar://broker:6650";
  });
}

abbrev pub server : Server
server = record { config = config; platform = plain; coder = coder }

abbrev pub ask : String → Request
ask subject = record {
  method = "POST";
  request_uri = "/v2/topic";
  proto = "HTTP/1.1";
  headers = ("Injectedsubs", subject ∷ []) ∷ [];
  vars = ("topicKey", orders_key) ∷ [];
  query = [];
  body = "";
}

abbrev pub stored : Topics
stored = (orders_key, stamped orders_key 5 orders) ∷ []

pub stored-IsKeyed : IsKeyed stored
unfolding lookup
stored-IsKeyed = record { at_key = λ k v. ground (arith, eq_iff orders_key k) }

abbrev pub msg : String → Message
msg payload = record {
  payload = payload;
  topic = "persistent://acme/ns/orders";
  event_time = 0;
  publish_time = 7;
  id = "1:1";
  key = "";
  properties = [];
}

abbrev pub pulsar : Pulsar
pulsar = record { new_client = λ url token. none; subscribe = λ url token options. none }

abbrev pub consume : Request
consume = record {
  method = "POST";
  request_uri = "/v2/firehose/p/acme/ns/orders";
  proto = "HTTP/1.1";
  headers = ("Authorization", "Bearer abc" ∷ []) ∷ [];
  vars = ("persistent", "p") ∷ ("tenant", "acme") ∷ ("namespace", "ns") ∷ ("topic", "orders") ∷ [];
  query = ("SubscriptionName", "billing" ∷ []) ∷ ("batchSize", "2" ∷ []) ∷ [];
  body = "";
}
