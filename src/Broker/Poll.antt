-- ===== src/Broker/Poll.antt =====
-- src/broker/sse-broker.go: a batch of messages for one request.
pub mod Batches
use pulsar_beam.Prelude.{
  ℕ, zero, suc, String, Option, none, some, List, [], ◌∷◌, ◌++◌, Result, ok, err, if◌then◌else◌,
}
use pulsar_beam.Prelude.Int.{ℤ, pos_part}
use pulsar_beam.Strings.{has_prefix}
use pulsar_beam.Model.Topic.{SubscriptionType, InitialPosition, earliest, non_resumable}
use pulsar_beam.Model.Message.{Message, PulsarMessages, new_pulsar_messages, add_pulsar_message}

pub record ConsumerOptions : Type 0 where
  pub topic : String
  pub subscription_name : String
  pub subscription_initial_position : InitialPosition
  pub subscription_type : SubscriptionType

-- The Pulsar client: the errors of connecting with a URL and a token and of subscribing.
pub record Pulsar : Type 0 where
  pub new_client : String → String → Option String
  pub subscribe : String → String → ConsumerOptions → Option String

-- What an iteration of the loop waits for. Behind the end of a list nothing arrives any more.
pub data Arrival : Type 0 where
  message : Message → Arrival
  timeout : Arrival

-- The calls of the Pulsar client, in their order.
pub data Call : Type 0 where
  ack : Message → Call
  unsubscribe close_consumer close_client : Call

abbrev connected : Option String → Result (Unit {0})
connected none = ok tt
connected (some e) = err e

abbrev subscribed : Option String → Result (Unit {0}) → Result (Unit {0})
subscribed none r = r
subscribed (some e) r = err e

unfoldable pub get_pulsar_client_consumer :
    Pulsar → String → String → ConsumerOptions → Result (Unit {0})
get_pulsar_client_consumer pulsar url token options =
    subscribed (pulsar.new_client url token) (connected (pulsar.subscribe url token options))

-- The loop; the number is that of the iterations that are left.
unfoldable pub poll_loop : ℕ → List Arrival → PulsarMessages → PulsarMessages × List Call
unfolding add_pulsar_message
poll_loop (suc n) (message msg ∷ arrivals) messages =
    let (messages', calls) = poll_loop n arrivals (add_pulsar_message msg messages).1 in
    (messages', ack msg ∷ calls)
poll_loop (suc n) (timeout ∷ arrivals) messages = (messages, [])
poll_loop (suc n) [] messages = (messages, [])
poll_loop zero arrivals messages = (messages, [])

-- The deferred calls of `PollBatchMessages`, the last one that was deferred first.
unfoldable pub poll_deferred : String → List Call
unfolding has_prefix
poll_deferred subscription_name =
    close_client
    ∷ close_consumer
    ∷ (if has_prefix subscription_name non_resumable then unsubscribe ∷ [] else [])

abbrev poll_connected :
    Result (Unit {0}) → String → ℤ → List Arrival → Result PulsarMessages × List Call
poll_connected (err e) name size arrivals = (err e, [])
poll_connected (ok _) name size arrivals =
    let (messages, calls) = poll_loop (pos_part size) arrivals (new_pulsar_messages size) in
    (ok messages, calls ++ poll_deferred name)

abbrev pub poll_options : String → String → SubscriptionType → ConsumerOptions
poll_options topic subscription_name sub_type = record {
  topic = topic;
  subscription_name = subscription_name;
  subscription_initial_position = earliest;
  subscription_type = sub_type;
}

unfoldable pub poll_batch_messages :
    Pulsar
    → String
    → String
    → String
    → String
    → SubscriptionType
    → ℤ
    → List Arrival
    → Result PulsarMessages × List Call
unfolding get_pulsar_client_consumer poll_loop new_pulsar_messages poll_deferred
poll_batch_messages pulsar url token topic subscription_name sub_type size arrivals =
    poll_connected
      (get_pulsar_client_consumer pulsar url token (poll_options topic subscription_name sub_type))
      subscription_name size arrivals
