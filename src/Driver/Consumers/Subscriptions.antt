-- ===== src/Driver/Consumers/Subscriptions.antt =====
-- Which subscription a key stands for.
use pulsar_beam.Prelude.{
  ℕ, String, true, false, Option, none, some, Result, ok, err, ◌≡◌, refl, suc, arith, eq_refl,
}
use pulsar_beam.Prelude.Maps.{lookup, insert, lookup-insert}
use pulsar_beam.Model.Topic.{
  SubscriptionType, InitialPosition, get_subscription_type, get_initial_position,
}
use pulsar_beam.Driver.{Client, Consumer, Cluster, PulsarConsumer, Driver}
use pulsar_beam.Driver.Clients.{get_pulsar_client}
use pulsar_beam.Driver.Consumers.{
  get_pulsar_consumer, get_consumer, consumer_found, consumer_of, enter_consumer, entry_of,
  or_again, try_again, with_client, subscribed, consumer_options,
}

-- The cache holds the consumer under the key.
pub record IsSubscribed (d : Driver) (key : String) (consumer : Consumer) : Type 0 where
  pub entry : PulsarConsumer
  pub at_key : lookup key d.consumer_cache ≡ some entry
  pub held : entry.consumer ≡ some consumer

abbrev holding : PulsarConsumer → Consumer → PulsarConsumer
holding c consumer = record c { consumer = some consumer }

insert-IsSubscribed :
    (key : String) (c : PulsarConsumer) (consumer : Consumer) (d : Driver) (calls : ℕ)
    → IsSubscribed
        (record d {
          calls = calls;
          consumer_cache = insert key (holding c consumer) d.consumer_cache;
        })
        key
        consumer
insert-IsSubscribed key c consumer d calls = record {
  entry = holding c consumer;
  at_key = rw (lookup-insert, eq_refl) refl;
  held = refl;
}

module _ (cluster : Cluster) where
  -- What a successful call has to leave behind, for the consumer that it returns.
  abbrev Subscribes : String → Result Consumer × Driver → Type 0
  Subscribes key x =
      (consumer : Consumer) (d' : Driver) → x ≡ (ok consumer, d') → IsSubscribed d' key consumer

  subscribed-IsSubscribed :
      (key : String) (c : PulsarConsumer) (client : Client) (d : Driver) (e : Option String)
      → Subscribes key (subscribed cluster key c client d e)
  subscribed-IsSubscribed key c client d (some e) consumer d' h = cc
  subscribed-IsSubscribed key c client d none consumer d' h =
      let made : Consumer = record {
        id = d.calls;
        client = client;
        options = consumer_options cluster c;
      } in
      let same : made ≡ consumer = cc in
      let after : record d {
        calls = suc d.calls;
        consumer_cache = insert key (holding c made) d.consumer_cache;
      }
          ≡ d' =
        cc in
      rw (← after, ← same) (insert-IsSubscribed key c made d (suc d.calls))

  with_client-IsSubscribed :
      (key : String) (c : PulsarConsumer) (x : Result Client × Driver)
      → Subscribes key (with_client cluster key c x)
  with_client-IsSubscribed key c (err e, d) consumer d' h = cc
  with_client-IsSubscribed key c (ok client, d) consumer d' h =
      subscribed-IsSubscribed key c client d
        (cluster.subscribe d.calls client (consumer_options cluster c)) consumer d' h

  -- A new subscription replaces whatever the cache holds; the one that there is has to be in it.
  made-IsSubscribed :
      (key : String) (c : PulsarConsumer) (d : Driver)
      → c.consumer ≡ none
      → Subscribes key (get_consumer cluster key c d)
  unfolding get_consumer
  made-IsSubscribed key c d e consumer d' h =
      with_client-IsSubscribed key c (get_pulsar_client cluster c.pulsar_url c.token false d)
        consumer d' (rw e at h)

  again-IsSubscribed :
      (key : String) (c : PulsarConsumer) (x : Result Client × Driver)
      → c.consumer ≡ none
      → Subscribes key (try_again cluster key c x)
  again-IsSubscribed key c (err e, d) n consumer d' h = cc
  again-IsSubscribed key c (ok client, d) n consumer d' h =
      made-IsSubscribed key c d n consumer d' h

  either-IsSubscribed :
      (url token key : String) (c : PulsarConsumer) (x : Result Consumer × Driver)
      → c.consumer ≡ none
      → Subscribes key x
      → Subscribes key (or_again cluster url token key c x)
  either-IsSubscribed url token key c (ok consumer, d) n first = first
  either-IsSubscribed url token key c (err e, d) n first =
      again-IsSubscribed key c (get_pulsar_client cluster url token true d) n

  kept :
      (url token key : String) (c : PulsarConsumer) (d : Driver) (held : Consumer)
      → c.consumer ≡ some held
      → consumer_of cluster url token key c d ≡ (ok held, d)
  unfolding get_consumer
  kept url token key c d held e = rw e refl

  found-IsSubscribed :
      (url token key : String) (c : PulsarConsumer) (d : Driver) (held : Option Consumer)
      → c.consumer ≡ held
      → lookup key d.consumer_cache ≡ some c
      → Subscribes key (consumer_of cluster url token key c d)
  found-IsSubscribed url token key c d none e l consumer d' h =
      either-IsSubscribed url token key c (get_consumer cluster key c d) e
        (made-IsSubscribed key c d e) consumer d' h
  found-IsSubscribed url token key c d (some held) e l consumer d' h =
      let k = kept url token key c d held e in
      let same : d ≡ d' = cc in
      let same' : held ≡ consumer = cc in
      rw (← same, ← same') (record { entry = c; at_key = l; held = e })

  entered-IsSubscribed :
      (url token key : String) (k : Result PulsarConsumer) (d : Driver)
      → ((c : PulsarConsumer) → k ≡ ok c → c.consumer ≡ none)
      → Subscribes key (enter_consumer cluster url token key k d)
  entered-IsSubscribed url token key (err e) d n consumer d' h = cc
  entered-IsSubscribed url token key (ok c) d n consumer d' h =
      found-IsSubscribed url token key c
        (record d { consumer_cache = insert key c d.consumer_cache }) none (n c refl)
        (rw (lookup-insert, eq_refl) refl) consumer d' h

  entry_unused :
      (url token topic sub_name : String) (type : Result SubscriptionType)
      (position : Result InitialPosition) (c : PulsarConsumer)
      → entry_of cluster url token topic sub_name type position ≡ ok c
      → c.consumer ≡ none
  entry_unused url token topic sub_name (err e) position c h = cc
  entry_unused url token topic sub_name (ok type) (err e) c h = cc
  entry_unused url token topic sub_name (ok type) (ok position) c h = ground arith

  cached-IsSubscribed :
      (url token key : String) (found : Option PulsarConsumer) (k : Result PulsarConsumer)
      (d : Driver)
      → lookup key d.consumer_cache ≡ found
      → ((c : PulsarConsumer) → k ≡ ok c → c.consumer ≡ none)
      → Subscribes key (consumer_found cluster url token key found k d)
  cached-IsSubscribed url token key (some c) k d l n =
      found-IsSubscribed url token key c d c.consumer refl l
  cached-IsSubscribed url token key none k d l n = entered-IsSubscribed url token key k d n

  pub get_pulsar_consumer-IsSubscribed :
      (url token topic sub_name sub_init_pos sub_type key : String) (d d' : Driver)
      (consumer : Consumer)
      → get_pulsar_consumer cluster url token topic sub_name sub_init_pos sub_type key d
        ≡ (ok consumer, d')
      → IsSubscribed d' key consumer
  unfolding get_pulsar_consumer
  get_pulsar_consumer-IsSubscribed url token topic sub_name sub_init_pos sub_type key d d' consumer
        h =
      cached-IsSubscribed url token key (lookup key d.consumer_cache)
        (entry_of cluster url token topic sub_name (get_subscription_type sub_type)
          (get_initial_position sub_init_pos))
        d refl
        (entry_unused url token topic sub_name (get_subscription_type sub_type)
          (get_initial_position sub_init_pos))
        consumer d' h

  pub get_pulsar_consumer-cached :
      (url token topic sub_name sub_init_pos sub_type key : String) (d : Driver)
      (consumer : Consumer)
      → IsSubscribed d key consumer
      → get_pulsar_consumer cluster url token topic sub_name sub_init_pos sub_type key d
        ≡ (ok consumer, d)
  unfolding get_pulsar_consumer
  get_pulsar_consumer-cached url token topic sub_name sub_init_pos sub_type key d consumer h =
      rw h.at_key (kept url token key h.entry d consumer h.held)

  -- The key alone decides which consumer is handed out. Whoever asks under a key for which a consumer
  -- was returned gets the same one, without a call of the library: for whatever cluster, topic and
  -- subscription, and even with a subscription type or an initial position that is none.
  pub get_pulsar_consumer-shared :
      (url token topic sub_name sub_init_pos sub_type key : String)
      (url' token' topic' sub_name' sub_init_pos' sub_type' : String) (d d' : Driver)
      (consumer : Consumer)
      → get_pulsar_consumer cluster url token topic sub_name sub_init_pos sub_type key d
        ≡ (ok consumer, d')
      → get_pulsar_consumer cluster url' token' topic' sub_name' sub_init_pos' sub_type' key d'
        ≡ (ok consumer, d')
  get_pulsar_consumer-shared url token topic sub_name sub_init_pos sub_type key url' token' topic'
        sub_name' sub_init_pos' sub_type' d d' consumer h =
      get_pulsar_consumer-cached url' token' topic' sub_name' sub_init_pos' sub_type' key d'
        consumer
        (get_pulsar_consumer-IsSubscribed url token topic sub_name sub_init_pos sub_type key d d'
          consumer h)
