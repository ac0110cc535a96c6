-- ===== src/Driver/Consumers/Frame.antt =====
-- What asking for a consumer leaves as it is.
use pulsar_beam.Prelude.{
  String, true, false, Option, none, some, Result, ok, err, ◌≡◌, refl, ◌∙◌, ◌==◌,
}
use pulsar_beam.Prelude.Maps.{Map, lookup, insert, lookup-insert}
use pulsar_beam.Model.Topic.{get_subscription_type, get_initial_position}
use pulsar_beam.Driver.{Client, Consumer, Cluster, PulsarConsumer, Driver}
use pulsar_beam.Driver.Clients.{get_pulsar_client}
use pulsar_beam.Driver.Clients.Frame.{Spares, get_pulsar_client-Spares}
use pulsar_beam.Driver.Consumers.{
  get_pulsar_consumer, get_consumer, consumer_found, consumer_of, entry_of, or_again, try_again,
  consumer_or_new, with_client, subscribed, consumer_options,
}

module _ (cluster : Cluster) (key other : String) (differs : (key == other) ≡ false) where
  -- The result leaves what some cache holds under the other key.
  abbrev Keeps : Map PulsarConsumer → Result Consumer × Driver → Type 0
  Keeps subs (x, d) = lookup other d.consumer_cache ≡ lookup other subs

  inserted :
      (c : PulsarConsumer) (subs : Map PulsarConsumer)
      → lookup other (insert key c subs) ≡ lookup other subs
  inserted c subs = rw (lookup-insert, differs) refl

  subscribed-Keeps :
      (c : PulsarConsumer) (client : Client) (d : Driver) (e : Option String)
      → Keeps d.consumer_cache (subscribed cluster key c client d e)
  subscribed-Keeps c client d (some e) = refl
  subscribed-Keeps c client d none = inserted _ d.consumer_cache

  with_client-Keeps :
      (c : PulsarConsumer) (subs : Map PulsarConsumer) (x : Result Client × Driver)
      → Spares cluster subs x
      → Keeps subs (with_client cluster key c x)
  with_client-Keeps c subs (err e, d) s = rw s refl
  with_client-Keeps c subs (ok client, d) s =
      rw (← s) (
        subscribed-Keeps c client d (cluster.subscribe d.calls client (consumer_options cluster c)))

  consumer_or_new-Keeps :
      (c : PulsarConsumer) (d : Driver) (held : Option Consumer)
      → Keeps d.consumer_cache (consumer_or_new cluster key c d held)
  consumer_or_new-Keeps c d (some consumer) = refl
  consumer_or_new-Keeps c d none =
      with_client-Keeps c d.consumer_cache (get_pulsar_client cluster c.pulsar_url c.token false d)
        (get_pulsar_client-Spares cluster c.pulsar_url c.token false d)

  try_again-Keeps :
      (c : PulsarConsumer) (subs : Map PulsarConsumer) (x : Result Client × Driver)
      → Spares cluster subs x
      → Keeps subs (try_again cluster key c x)
  unfolding get_consumer
  try_again-Keeps c subs (err e, d) s = rw s refl
  try_again-Keeps c subs (ok client, d) s = rw (← s) (consumer_or_new-Keeps c d c.consumer)

  or_again-Keeps :
      (url token : String) (c : PulsarConsumer) (subs : Map PulsarConsumer)
      (x : Result Consumer × Driver)
      → Keeps subs x
      → Keeps subs (or_again cluster url token key c x)
  or_again-Keeps url token c subs (ok consumer, d) first = first
  or_again-Keeps url token c subs (err e, d) first =
      try_again-Keeps c d.consumer_cache (get_pulsar_client cluster url token true d)
        (get_pulsar_client-Spares cluster url token true d)
      ∙ first

  consumer_of-Keeps :
      (url token : String) (c : PulsarConsumer) (d : Driver)
      → Keeps d.consumer_cache (consumer_of cluster url token key c d)
  unfolding get_consumer
  consumer_of-Keeps url token c d =
      or_again-Keeps url token c d.consumer_cache (get_consumer cluster key c d)
        (consumer_or_new-Keeps c d c.consumer)

  found-Keeps :
      (url token : String) (found : Option PulsarConsumer) (k : Result PulsarConsumer) (d : Driver)
      → Keeps d.consumer_cache (consumer_found cluster url token key found k d)
  found-Keeps url token (some c) k d = consumer_of-Keeps url token c d
  found-Keeps url token none (err e) d = refl
  found-Keeps url token none (ok c) d =
      consumer_of-Keeps url token c (record d { consumer_cache = insert key c d.consumer_cache })
      ∙ inserted c d.consumer_cache

  pub get_pulsar_consumer-Keeps :
      (url token topic sub_name sub_init_pos sub_type : String) (d : Driver)
      → Keeps d.consumer_cache
          (get_pulsar_consumer cluster url token topic sub_name sub_init_pos sub_type key d)
  unfolding get_pulsar_consumer
  get_pulsar_consumer-Keeps url token topic sub_name sub_init_pos sub_type d =
      found-Keeps url token (lookup key d.consumer_cache)
        (entry_of cluster url token topic sub_name (get_subscription_type sub_type)
          (get_initial_position sub_init_pos))
        d
