-- ===== src/Driver/Consumers/Cancelling.antt =====
-- What cancelling a subscription does to its consumer, and to one that could not be made.
use pulsar_beam.Prelude.{
  String, Bool, true, false, Option, none, some, Result, ok, err, ◌≡◌, refl, ◌∙◌, List, ◌∷◌, suc,
  if◌then◌else◌, ◌==◌, eq_refl,
}
use pulsar_beam.Prelude.Maps.{Map, lookup, insert, delete, lookup-insert, lookup-delete}
use pulsar_beam.Strings.{has_prefix}
use pulsar_beam.Model.Topic.{
  SubscriptionType, InitialPosition, get_subscription_type, get_initial_position, non_resumable,
}
use pulsar_beam.Driver.{Client, Consumer, Cluster, PulsarConsumer, Driver}
use pulsar_beam.Driver.Clients.{get_pulsar_client}
use pulsar_beam.Driver.Clients.Frame.{Spares, get_pulsar_client-Spares}
use pulsar_beam.Driver.Consumers.{
  get_pulsar_consumer, get_consumer, consumer_of, or_again, try_again, consumer_or_new, with_client,
  subscribed, consumer_options, cancel_pulsar_consumer, close_consumer,
}
use pulsar_beam.Driver.Consumers.Subscriptions.{IsSubscribed}

-- What `CancelPulsarConsumer` has to do to the state for the consumer under a key.
pub record IsCancelled (key : String) (consumer : Consumer) (d d' : Driver) : Type 0 where
  pub forgotten : lookup key d'.consumer_cache ≡ none
  pub others :
      (other : String)
      → (key == other) ≡ false
      → lookup other d'.consumer_cache ≡ lookup other d.consumer_cache
  pub closes : d'.closed ≡ consumer.id ∷ d.closed
  pub unsubscribes : d'.calls ≡ (
      if has_prefix consumer.options.subscription_name non_resumable then suc d.calls else d.calls)

abbrev asked : Bool → Driver → Driver
asked b d = if b then record d { calls = suc d.calls } else d

-- The state that `cancel_held` ends in.
abbrev ended : String → PulsarConsumer → Driver → Driver
unfolding close_consumer delete
ended key c d =
    let d' = close_consumer key c d in record d' { consumer_cache = delete key d'.consumer_cache }

spares :
    (key other : String) (c : PulsarConsumer) (kept : List (String × PulsarConsumer))
    → (key == other) ≡ false
    → lookup other (delete key (insert key c kept)) ≡ lookup other kept
spares key other c kept e = rw (lookup-delete, e, lookup-insert, e) refl

ended-IsCancelled :
    (key : String) (c : PulsarConsumer) (consumer : Consumer) (d : Driver) (b : Bool)
    → c.consumer ≡ some consumer
    → has_prefix consumer.options.subscription_name non_resumable ≡ b
    → IsCancelled key consumer d (ended key c (asked b d))
unfolding close_consumer ended
ended-IsCancelled key c consumer d true held e = record {
  forgotten = rw (held, lookup-delete, eq_refl) refl;
  others = λ other other_key. rw held (spares key other _ d.consumer_cache other_key);
  closes = rw held refl;
  unsubscribes = rw (held, e) refl;
}
ended-IsCancelled key c consumer d false held e = record {
  forgotten = rw (held, lookup-delete, eq_refl) refl;
  others = λ other other_key. rw held (spares key other _ d.consumer_cache other_key);
  closes = rw held refl;
  unsubscribes = rw (held, e) refl;
}

-- The consumer under the key, if there is one, is closed and forgotten, the other keys keep theirs,
-- and the library is called to unsubscribe if and only if the name of the subscription begins with
-- the prefix of those that are not to be resumed.
pub cancel_pulsar_consumer-IsCancelled :
    (key : String) (d : Driver) (consumer : Consumer)
    → IsSubscribed d key consumer
    → (d' : Driver) × (cancel_pulsar_consumer key d ≡ some d') × IsCancelled key consumer d d'
unfolding cancel_pulsar_consumer ended
cancel_pulsar_consumer-IsCancelled key d consumer h = (
  ended key h.entry (asked (has_prefix consumer.options.subscription_name non_resumable) d),
  rw (h.at_key, h.held) refl,
  ended-IsCancelled key h.entry consumer d
      (has_prefix consumer.options.subscription_name non_resumable) h.held refl,
)

module _ (cluster : Cluster) where
  -- How a failed attempt leaves the cache of the consumers.
  abbrev Fails : Map PulsarConsumer → Result Consumer × Driver → Type 0
  Fails subs x = (e : String) (d' : Driver) → x ≡ (err e, d') → d'.consumer_cache ≡ subs

  subscribed-Fails :
      (key : String) (c : PulsarConsumer) (client : Client) (d : Driver) (r : Option String)
      → Fails d.consumer_cache (subscribed cluster key c client d r)
  subscribed-Fails key c client d (some e) e' d' h =
      let same : record d { calls = suc d.calls } ≡ d' = cc in rw (← same) refl
  subscribed-Fails key c client d none e d' h = cc

  with_client-Fails :
      (key : String) (c : PulsarConsumer) (subs : Map PulsarConsumer) (x : Result Client × Driver)
      → Spares cluster subs x
      → Fails subs (with_client cluster key c x)
  with_client-Fails key c subs (err e, d) s e' d' h = let same : d ≡ d' = cc in rw (← same) s
  with_client-Fails key c subs (ok client, d) s e' d' h =
      subscribed-Fails key c client d
        (cluster.subscribe d.calls client (consumer_options cluster c)) e' d' h
      ∙ s

  get_consumer-Fails :
      (key : String) (c : PulsarConsumer) (d : Driver) (held : Option Consumer)
      → Fails d.consumer_cache (consumer_or_new cluster key c d held)
  get_consumer-Fails key c d (some consumer) e d' h = cc
  get_consumer-Fails key c d none e d' h =
      with_client-Fails key c d.consumer_cache
        (get_pulsar_client cluster c.pulsar_url c.token false d)
        (get_pulsar_client-Spares cluster c.pulsar_url c.token false d) e d' h

  try_again-Fails :
      (key : String) (c : PulsarConsumer) (subs : Map PulsarConsumer) (x : Result Client × Driver)
      → Spares cluster subs x
      → Fails subs (try_again cluster key c x)
  unfolding get_consumer
  try_again-Fails key c subs (err e, d) s e' d' h = let same : d ≡ d' = cc in rw (← same) s
  try_again-Fails key c subs (ok client, d) s e' d' h =
      get_consumer-Fails key c d c.consumer e' d' h ∙ s

  or_again-Fails :
      (url token key : String) (c : PulsarConsumer) (subs : Map PulsarConsumer)
      (x : Result Consumer × Driver)
      → Fails subs x
      → Fails subs (or_again cluster url token key c x)
  or_again-Fails url token key c subs (ok consumer, d) first e' d' h = cc
  or_again-Fails url token key c subs (err e, d) first e' d' h =
      try_again-Fails key c d.consumer_cache (get_pulsar_client cluster url token true d)
        (get_pulsar_client-Spares cluster url token true d) e' d' h
      ∙ first e d refl

  consumer_of-Fails :
      (url token key : String) (c : PulsarConsumer) (d : Driver)
      → Fails d.consumer_cache (consumer_of cluster url token key c d)
  unfolding get_consumer
  consumer_of-Fails url token key c d =
      or_again-Fails url token key c d.consumer_cache (get_consumer cluster key c d)
        (get_consumer-Fails key c d c.consumer)

  -- A new subscription that fails, although its type and its initial position are valid, stays in
  -- the cache without a consumer, and cancelling it panics.
  pub get_pulsar_consumer-failed :
      (url token topic sub_name sub_init_pos sub_type key e : String) (type : SubscriptionType)
      (position : InitialPosition) (d d' : Driver)
      → get_subscription_type sub_type ≡ ok type
      → get_initial_position sub_init_pos ≡ ok position
      → lookup key d.consumer_cache ≡ none
      → get_pulsar_consumer cluster url token topic sub_name sub_init_pos sub_type key d
        ≡ (err e, d')
      → cancel_pulsar_consumer key d' ≡ none
  unfolding get_pulsar_consumer cancel_pulsar_consumer
  get_pulsar_consumer-failed url token topic sub_name sub_init_pos sub_type key e type position d d'
        t p n h =
      let c : PulsarConsumer = record {
        consumer = none;
        pulsar_url = url;
        token = token;
        topic = topic;
        subscription_name = sub_name;
        init_position = position;
        subscription_type = type;
      } in
      let failed =
        consumer_of-Fails url token key c
          (record d { consumer_cache = insert key c d.consumer_cache }) e d' (rw (n, t, p) at h) in
      rw (failed, lookup-insert, eq_refl) refl
