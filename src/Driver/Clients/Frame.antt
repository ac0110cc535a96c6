-- ===== src/Driver/Clients/Frame.antt =====
-- What asking for a client leaves as it is.
use pulsar_beam.Prelude.{
  String, Bool, true, false, Option, none, some, Result, ok, err, ◌≡◌, refl, ◌∙◌,
}
use pulsar_beam.Prelude.Maps.{Map, lookup}
use pulsar_beam.Strings.{◌<>◌}
use pulsar_beam.Driver.{Client, ClientOptions, Cluster, PulsarConsumer, PulsarClient, Driver}
use pulsar_beam.Driver.Clients.{
  get_pulsar_client, get_client, reconnect_client, close_client, new_pulsar_client, get_found,
  get_entry, client_or_new, keep_client, open_with, opened, client_options,
}

module _ (cluster : Cluster) where
  -- What asking for a client leaves alone.
  abbrev pub Spares : Map PulsarConsumer → Result Client × Driver → Type 0
  Spares subs (x, d) = d.consumer_cache ≡ subs

  opened-Spares :
      (options : ClientOptions) (d : Driver) (e : Option String)
      → Spares d.consumer_cache (opened cluster options d e)
  opened-Spares options d none = refl
  opened-Spares options d (some e) = refl

  open_with-Spares :
      (d : Driver) (k : Result ClientOptions) → Spares d.consumer_cache (open_with cluster d k)
  open_with-Spares d (err e) = refl
  open_with-Spares d (ok options) = opened-Spares options d (cluster.new_client d.calls options)

  keep_client-Spares :
      (key : String) (c : PulsarClient) (subs : Map PulsarConsumer) (x : Result Client × Driver)
      → Spares subs x
      → Spares subs (keep_client cluster key c x)
  keep_client-Spares key c subs (err e, d) h = h
  keep_client-Spares key c subs (ok client, d) h = h

  new_pulsar_client-Spares :
      (url token : String) (d : Driver)
      → Spares d.consumer_cache (new_pulsar_client cluster url token d)
  unfolding new_pulsar_client
  new_pulsar_client-Spares url token d = open_with-Spares d (client_options cluster url token)

  client_or_new-Spares :
      (key url token : String) (c : PulsarClient) (d : Driver) (held : Option Client)
      → Spares d.consumer_cache (client_or_new cluster key c url token d held)
  client_or_new-Spares key url token c d (some client) = refl
  client_or_new-Spares key url token c d none =
      keep_client-Spares key c d.consumer_cache (new_pulsar_client cluster url token d)
        (new_pulsar_client-Spares url token d)

  close_client-Spares :
      (key : String) (c : PulsarClient) (d : Driver) (held : Option Client)
      → c.client ≡ held
      → (close_client cluster key c d).consumer_cache ≡ d.consumer_cache
  unfolding close_client
  close_client-Spares key c d none e = rw e refl
  close_client-Spares key c d (some client) e = rw e refl

  get_entry-Spares :
      (url token key : String) (reset : Bool) (c : PulsarClient) (d : Driver)
      → Spares d.consumer_cache (get_entry cluster url token reset key c d)
  unfolding reconnect_client get_client
  get_entry-Spares url token key false c d = client_or_new-Spares key url token c d c.client
  get_entry-Spares url token key true c d =
      client_or_new-Spares key c.pulsar_url c.token (record c { client = none })
        (close_client cluster key c d) none
      ∙ close_client-Spares key c d c.client refl

  get_found-Spares :
      (url token key : String) (reset : Bool) (found : Option PulsarClient) (d : Driver)
      → Spares d.consumer_cache (get_found cluster url token reset key found d)
  get_found-Spares url token key reset (some c) d = get_entry-Spares url token key reset c d
  get_found-Spares url token key reset none d = get_entry-Spares url token key reset _ _

  pub get_pulsar_client-Spares :
      (url token : String) (reset : Bool) (d : Driver)
      → Spares d.consumer_cache (get_pulsar_client cluster url token reset d)
  unfolding get_pulsar_client
  get_pulsar_client-Spares url token reset d =
      get_found-Spares url token (url <> token) reset (lookup (url <> token) d.client_cache) d
