-- ===== src/Driver.antt =====
-- src/pulsardriver: the connections to Pulsar clusters, and the objects that share them.
pub mod Clients
pub mod Producers
pub mod Sending
pub mod Consumers
use pulsar_beam.Prelude.{ℕ, suc, String, Bool, Option, List, ◌∷◌}
use pulsar_beam.Prelude.Int.{ℤ}
use pulsar_beam.Prelude.Maps.{Map}
use pulsar_beam.Model.Topic.{SubscriptionType, InitialPosition}
use pulsar_beam.Util.Cache.{Cache}
use pulsar_beam.Broker.Poll.{ConsumerOptions}

pub record ClientOptions : Type 0 where
  pub url : String
  pub authentication : Option String
  pub tls_trust_certs_file_path : Option String
  pub tls_allow_insecure_connection : Bool
  pub tls_validate_hostname : Bool

-- What the Pulsar library returns. The number is that of the call that made it.
pub record Client : Type 0 where
  pub id : ℕ
  pub options : ClientOptions

pub record Producer : Type 0 where
  pub id : ℕ
  pub client : Client
  pub topic : String

pub record Consumer : Type 0 where
  pub id : ℕ
  pub client : Client
  pub options : ConsumerOptions

-- What the library reports of a send. An error says only that no acknowledgement has come: a message
-- whose send timed out may have been stored by the broker.
pub data Outcome : Type 0 where
  acknowledged : Outcome
  producer_closed failed : String → Outcome

-- The environment of the process and the clusters that it reaches: the n-th call of the library
-- happens at a time and comes to a result, an error or none.
pub record Cluster : Type 0 where
  pub trust_store : String
  pub allow_insecure_connection : String
  pub validate_hostname : String
  pub send_retry_limit : ℤ
  pub now : ℕ → ℕ
  pub new_client : ℕ → ClientOptions → Option String
  pub create_producer : ℕ → Client → String → Option String
  pub subscribe : ℕ → Client → ConsumerOptions → Option String
  pub send : ℕ → Producer → String → Outcome

-- `PulsarClient`, `PulsarProducer` and `PulsarConsumer`.
pub record PulsarClient : Type 0 where
  pub client : Option Client
  pub pulsar_url : String
  pub token : String

pub record PulsarProducer : Type 0 where
  pub producer : Option Producer
  pub pulsar_url : String
  pub token : String
  pub topic : String

pub record PulsarConsumer : Type 0 where
  pub consumer : Option Consumer
  pub pulsar_url : String
  pub token : String
  pub topic : String
  pub subscription_name : String
  pub init_position : InitialPosition
  pub subscription_type : SubscriptionType

-- The three caches. A producer's object is shared by whoever has found it in the cache, so the cache
-- holds addresses.
pub record Driver : Type 0 where
  pub client_cache : Map PulsarClient
  pub producer_cache : Cache ℕ
  pub producers : ℕ → PulsarProducer
  pub allocated : ℕ
  pub consumer_cache : Map PulsarConsumer
  -- how many calls of the library there were
  pub calls : ℕ
  -- the clients, producers and consumers that were closed
  pub closed : List ℕ

abbrev pub called : Driver → Driver
called d = record d { calls = suc d.calls }

abbrev pub close_id : ℕ → Driver → Driver
close_id id d = record d { closed = id ∷ d.closed }
