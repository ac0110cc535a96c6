-- ===== src/Driver/Consumers.antt =====
-- src/pulsardriver/pulsar-consumer.go.
pub mod Subscriptions
pub mod Cancelling
pub mod Frame
use pulsar_beam.Prelude.{
  String, Bool, true, false, Option, none, some, Result, ok, err, if◌then◌else◌,
}
use pulsar_beam.Prelude.Maps.{lookup, insert, delete}
use pulsar_beam.Strings.{has_prefix}
use pulsar_beam.Model.Topic.{
  SubscriptionType, InitialPosition, get_subscription_type, get_initial_position, non_resumable,
}
use pulsar_beam.Broker.Poll.{ConsumerOptions}
use pulsar_beam.Driver.{Client, Consumer, Cluster, PulsarConsumer, Driver, called, close_id}
use pulsar_beam.Driver.Clients.{get_pulsar_client}

abbrev pub close_if : Option Consumer → Driver → Driver
close_if none d = d
close_if (some consumer) d = close_id consumer.id d

-- The object is at `key` in the cache.
unfoldable pub close_consumer : String → PulsarConsumer → Driver → Driver
unfolding insert
close_consumer key c d =
    let d' = close_if c.consumer d in
    record d' { consumer_cache = insert key (record c { consumer = none }) d'.consumer_cache }

-- `Unsubscribe`, whose error is only reported, and `Close` of the object. Without a consumer, which
-- is the state of an object whose subscription has failed, the question for its name panics.
abbrev pub cancel_held : String → PulsarConsumer → Option Consumer → Driver → Option Driver
cancel_held key c none d = none
cancel_held key c (some consumer) d =
    let d' = if has_prefix consumer.options.subscription_name non_resumable then called d else d in
    let d'' = close_consumer key c d' in
    some (record d'' { consumer_cache = delete key d''.consumer_cache })

abbrev pub cancel_found : String → Option PulsarConsumer → Driver → Option Driver
cancel_found key none d = some d
cancel_found key (some c) d = cancel_held key c c.consumer d

-- `none` is a panic.
unfoldable pub cancel_pulsar_consumer : String → Driver → Option Driver
unfolding lookup close_consumer delete has_prefix
cancel_pulsar_consumer key d = cancel_found key (lookup key d.consumer_cache) d

module _ (cluster : Cluster) where
  abbrev pub consumer_options : PulsarConsumer → ConsumerOptions
  consumer_options c = record {
    topic = c.topic;
    subscription_name = c.subscription_name;
    subscription_initial_position = c.init_position;
    subscription_type = c.subscription_type;
  }

  abbrev pub subscribed :
      String → PulsarConsumer → Client → Driver → Option String → Result Consumer × Driver
  subscribed key c client d (some e) = (err e, called d)
  subscribed key c client d none =
      let consumer : Consumer = record {
        id = d.calls;
        client = client;
        options = consumer_options c;
      } in
      (
        ok consumer,
        record (called d) {
          consumer_cache = insert key (record c { consumer = some consumer }) d.consumer_cache;
        },
      )

  abbrev pub with_client :
      String → PulsarConsumer → Result Client × Driver → Result Consumer × Driver
  with_client key c (err e, d) = (err e, d)
  with_client key c (ok client, d) =
      subscribed key c client d (cluster.subscribe d.calls client (consumer_options c))

  abbrev pub consumer_or_new :
      String → PulsarConsumer → Driver → Option Consumer → Result Consumer × Driver
  consumer_or_new key c d (some consumer) = (ok consumer, d)
  consumer_or_new key c d none =
      with_client key c (get_pulsar_client cluster c.pulsar_url c.token false d)

  unfoldable pub get_consumer : String → PulsarConsumer → Driver → Result Consumer × Driver
  unfolding get_pulsar_client insert
  get_consumer key c d = consumer_or_new key c d c.consumer

  unfoldable pub reconnect_consumer : String → PulsarConsumer → Driver → Result Consumer × Driver
  unfolding get_consumer close_consumer
  reconnect_consumer key c d =
      get_consumer key (record c { consumer = none }) (close_consumer key c d)

  abbrev pub try_again : String → PulsarConsumer → Result Client × Driver → Result Consumer × Driver
  try_again key c (err e, d) = (err e, d)
  try_again key c (ok client, d) = get_consumer key c d

  -- The first attempt has failed, so the object is as it was before.
  abbrev pub or_again :
      String
      → String
      → String
      → PulsarConsumer
      → Result Consumer × Driver
      → Result Consumer × Driver
  or_again url token key c (ok consumer, d) = (ok consumer, d)
  or_again url token key c (err e, d) = try_again key c (get_pulsar_client cluster url token true d)

  abbrev pub consumer_of :
      String → String → String → PulsarConsumer → Driver → Result Consumer × Driver
  consumer_of url token key c d = or_again url token key c (get_consumer key c d)

  -- The subscription type is parsed before the initial position.
  abbrev pub entry_of :
      String
      → String
      → String
      → String
      → Result SubscriptionType
      → Result InitialPosition
      → Result PulsarConsumer
  entry_of url token topic sub_name (err e) position = err e
  entry_of url token topic sub_name (ok type) (err e) = err e
  entry_of url token topic sub_name (ok type) (ok position) = ok (record {
    consumer = none;
    pulsar_url = url;
    token = token;
    topic = topic;
    subscription_name = sub_name;
    init_position = position;
    subscription_type = type;
  })

  abbrev pub enter_consumer :
      String → String → String → Result PulsarConsumer → Driver → Result Consumer × Driver
  enter_consumer url token key (err e) d = (err e, d)
  enter_consumer url token key (ok c) d =
      consumer_of url token key c (record d { consumer_cache = insert key c d.consumer_cache })

  abbrev pub consumer_found :
      String
      → String
      → String
      → Option PulsarConsumer
      → Result PulsarConsumer
      → Driver
      → Result Consumer × Driver
  consumer_found url token key (some c) fresh d = consumer_of url token key c d
  consumer_found url token key none fresh d = enter_consumer url token key fresh d

  unfoldable pub get_pulsar_consumer :
      String
      → String
      → String
      → String
      → String
      → String
      → String
      → Driver
      → Result Consumer × Driver
  unfolding get_consumer get_pulsar_client lookup insert get_subscription_type get_initial_position
  get_pulsar_consumer url token topic sub_name sub_init_pos sub_type sub_key d =
      consumer_found url token sub_key (lookup sub_key d.consumer_cache)
        (entry_of url token topic sub_name (get_subscription_type sub_type)
          (get_initial_position sub_init_pos))
        d
