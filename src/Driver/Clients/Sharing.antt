-- ===== src/Driver/Clients/Sharing.antt =====
-- Which requests share a client.
use pulsar_beam.Prelude.{
  ap, String, Bool, true, false, Option, none, some, Result, ok, err, ◌≡◌, refl, sym, arith,
  eq_refl,
}
use pulsar_beam.Prelude.Maps.{lookup, insert, lookup-insert}
use pulsar_beam.Strings.{◌<>◌}
use pulsar_beam.Driver.{Client, ClientOptions, Cluster, PulsarClient, Driver}
use pulsar_beam.Driver.Clients.{
  client_options, opened, open_with, get_client, get_pulsar_client, keep_client, client_or_new,
  new_pulsar_client, reconnect_client, close_client, new_entry, get_found, get_entry,
}

-- The cache holds the client under the key.
pub record IsCached (d : Driver) (key : String) (client : Client) : Type 0 where
  pub entry : PulsarClient
  pub at_key : lookup key d.client_cache ≡ some entry
  pub held : entry.client ≡ some client

abbrev holding : PulsarClient → Client → PulsarClient
holding c client = record c { client = some client }

module _ (cluster : Cluster) where
  insert-IsCached :
      (key : String) (c : PulsarClient) (client : Client) (d : Driver)
      → IsCached
          (record d { client_cache = insert key (holding c client) d.client_cache })
          key
          client
  insert-IsCached key c client d = record {
    entry = holding c client;
    at_key = rw (lookup-insert, eq_refl) refl;
    held = refl;
  }

  keep_client-IsCached :
      (key : String) (c : PulsarClient) (x : Result Client × Driver) (client : Client) (d' : Driver)
      → keep_client cluster key c x ≡ (ok client, d')
      → IsCached d' key client
  keep_client-IsCached key c (err e, d) client d' h = cc
  keep_client-IsCached key c (ok made, d) client d' h =
      let same : made ≡ client = cc in
      let after : record d { client_cache = insert key (holding c made) d.client_cache } ≡ d' =
        cc in
      rw (← after, ← same) (insert-IsCached key c made d)

  get_client-IsCached :
      (key url token : String) (c : PulsarClient) (d d' : Driver) (held : Option Client)
      (client : Client)
      → c.client ≡ held
      → lookup key d.client_cache ≡ some c
      → client_or_new cluster key c url token d held ≡ (ok client, d')
      → IsCached d' key client
  get_client-IsCached key url token c d d' (some made) client e l h =
      let same : d ≡ d' = cc in
      let same' : made ≡ client = cc in
      rw (← same, ← same') (record { entry = c; at_key = l; held = e })
  get_client-IsCached key url token c d d' none client e l h =
      keep_client-IsCached key c (new_pulsar_client cluster url token d) client d' h

  get_entry-IsCached :
      (url token key : String) (reset : Bool) (c : PulsarClient) (d d' : Driver) (client : Client)
      → lookup key d.client_cache ≡ some c
      → get_entry cluster url token reset key c d ≡ (ok client, d')
      → IsCached d' key client
  unfolding reconnect_client get_client
  get_entry-IsCached url token key false c d d' client l h =
      get_client-IsCached key url token c d d' c.client client refl l h
  get_entry-IsCached url token key true c d d' client l h =
      keep_client-IsCached key (record c { client = none })
        (new_pulsar_client cluster c.pulsar_url c.token (close_client cluster key c d)) client d' h

  get_found-IsCached :
      (url token key : String) (reset : Bool) (found : Option PulsarClient) (d d' : Driver)
      (client : Client)
      → lookup key d.client_cache ≡ found
      → get_found cluster url token reset key found d ≡ (ok client, d')
      → IsCached d' key client
  get_found-IsCached url token key reset (some c) d d' client l h =
      get_entry-IsCached url token key reset c d d' client l h
  get_found-IsCached url token key reset none d d' client l h =
      get_entry-IsCached url token key reset (new_entry cluster url token) _ d' client
        (rw (lookup-insert, eq_refl) refl) h

  pub get_pulsar_client-IsCached :
      (url token : String) (reset : Bool) (d d' : Driver) (client : Client)
      → get_pulsar_client cluster url token reset d ≡ (ok client, d')
      → IsCached d' (url <> token) client
  unfolding get_pulsar_client
  get_pulsar_client-IsCached url token reset d d' client h =
      get_found-IsCached url token (url <> token) reset (lookup (url <> token) d.client_cache) d d'
        client refl h

  pub get_pulsar_client-cached :
      (url token : String) (d : Driver) (client : Client)
      → IsCached d (url <> token) client
      → get_pulsar_client cluster url token false d ≡ (ok client, d)
  unfolding get_pulsar_client get_client
  get_pulsar_client-cached url token d client h = rw (h.at_key, h.held) refl

  get_pulsar_client-reused :
      (url token other_url other_token : String) (reset : Bool) (d d' : Driver) (client : Client)
      → get_pulsar_client cluster url token reset d ≡ (ok client, d')
      → other_url <> other_token ≡ url <> token
      → get_pulsar_client cluster other_url other_token false d' ≡ (ok client, d')
  get_pulsar_client-reused url token other_url other_token reset d d' client h e =
      get_pulsar_client-cached other_url other_token d' client
        (rw e (get_pulsar_client-IsCached url token reset d d' client h))

  opened-options :
      (options : ClientOptions) (d d' : Driver) (e : Option String) (client : Client)
      → opened cluster options d e ≡ (ok client, d')
      → client.options ≡ options
  opened-options options d d' none client h = ground arith
  opened-options options d d' (some e) client h = cc

  open_with-options :
      (d d' : Driver) (k : Result ClientOptions) (client : Client)
      → open_with cluster d k ≡ (ok client, d')
      → k ≡ ok client.options
  open_with-options d d' (err e) client h = cc
  open_with-options d d' (ok options) client h =
      ap ok (sym (opened-options options d d' (cluster.new_client d.calls options) client h))

  keep_client-result :
      (key : String) (c : PulsarClient) (x : Result Client × Driver) (client : Client) (d' : Driver)
      → keep_client cluster key c x ≡ (ok client, d')
      → (d'' : Driver) × (x ≡ (ok client, d''))
  keep_client-result key c (err e, d) client d' h = cc
  keep_client-result key c (ok made, d) client d' h = (d, cc)

  made_with :
      (key url token : String) (c : PulsarClient) (d d' : Driver) (client : Client)
      → keep_client cluster key c (new_pulsar_client cluster url token d) ≡ (ok client, d')
      → client_options cluster url token ≡ ok client.options
  unfolding new_pulsar_client
  made_with key url token c d d' client h =
      let (d'', e) =
        keep_client-result key c (open_with cluster d (client_options cluster url token)) client d'
          h in
      open_with-options d d'' (client_options cluster url token) client e

  entry_options :
      (url token key : String) (reset : Bool) (d d' : Driver) (client : Client)
      → get_entry cluster url token reset key (new_entry cluster url token) d ≡ (ok client, d')
      → client_options cluster url token ≡ ok client.options
  unfolding get_client reconnect_client
  entry_options url token key false d d' client h =
      made_with key url token (new_entry cluster url token) d d' client h
  entry_options url token key true d d' client h =
      made_with key url token (new_entry cluster url token) _ d' client h

  -- A client that is not shared yet is made with the options of the URL and token that it is asked
  -- for, and from then on is handed out, without a new connection, to every later request whose URL
  -- and token run together to the same text, although they may be others.
  pub get_pulsar_client-shared :
      (url token other_url other_token : String) (reset : Bool) (d d' : Driver) (client : Client)
      → lookup (url <> token) d.client_cache ≡ none
      → get_pulsar_client cluster url token reset d ≡ (ok client, d')
      → other_url <> other_token ≡ url <> token
      → (client_options cluster url token ≡ ok client.options)
        × (get_pulsar_client cluster other_url other_token false d' ≡ (ok client, d'))
  unfolding get_pulsar_client
  get_pulsar_client-shared url token other_url other_token reset d d' client l h e = (
    entry_options url token (url <> token) reset _ d' client (rw l at h),
    get_pulsar_client-reused url token other_url other_token reset d d' client h e,
  )
