-- ===== src/Driver/Clients.antt =====
-- src/pulsardriver/pulsar-client.go.
pub mod Sharing
pub mod Life
pub mod Frame
use pulsar_beam.Prelude.{
  ℕ, String, Bool, Option, none, some, Result, ok, err, ◌&&◌, if◌then◌else◌, ◌==◌,
}
use pulsar_beam.Prelude.Maps.{lookup, insert}
use pulsar_beam.Strings.{◌<>◌, has_prefix}
use pulsar_beam.Util.{string_to_bool}
use pulsar_beam.Driver.{ClientOptions, Client, Cluster, PulsarClient, Driver, called, close_id}

module _ (cluster : Cluster) where
  unfoldable pub client_options : String → String → Result ClientOptions
  unfolding has_prefix string_to_bool
  client_options url token =
      let is_ssl = has_prefix url "pulsar+ssl://" in
      if is_ssl && cluster.trust_store == ""
      then err "this is fatal that we are missing trustStore while pulsar+ssl is required"
      else ok (record {
        url = url;
        authentication = if token == "" then none else some token;
        tls_trust_certs_file_path = if is_ssl then some cluster.trust_store else none;
        tls_allow_insecure_connection = string_to_bool cluster.allow_insecure_connection;
        tls_validate_hostname = string_to_bool cluster.validate_hostname;
      })

  abbrev pub not_instantiated : String → String
  not_instantiated e = "Could not instantiate Pulsar client: " <> e

  abbrev pub opened : ClientOptions → Driver → Option String → Result Client × Driver
  opened options d none = (ok (record { id = d.calls; options = options }), called d)
  opened options d (some e) = (err (not_instantiated e), called d)

  abbrev pub open_with : Driver → Result ClientOptions → Result Client × Driver
  open_with d (err e) = (err e, d)
  open_with d (ok options) = opened options d (cluster.new_client d.calls options)

  unfoldable pub new_pulsar_client : String → String → Driver → Result Client × Driver
  unfolding client_options
  new_pulsar_client url token d = open_with d (client_options url token)

  -- The object is at `key` in the cache, from which no client is ever deleted.
  abbrev pub keep_client : String → PulsarClient → Result Client × Driver → Result Client × Driver
  keep_client key c (err e, d) = (err (not_instantiated e), d)
  keep_client key c (ok client, d) = (
    ok client,
    record d { client_cache = insert key (record c { client = some client }) d.client_cache },
  )

  abbrev pub client_or_new :
      String → PulsarClient → String → String → Driver → Option Client → Result Client × Driver
  client_or_new key c url token d (some client) = (ok client, d)
  client_or_new key c url token d none = keep_client key c (new_pulsar_client url token d)

  unfoldable pub get_client :
      String → PulsarClient → String → String → Driver → Result Client × Driver
  unfolding new_pulsar_client insert
  get_client key c url token d = client_or_new key c url token d c.client

  abbrev pub close_if : Option Client → Driver → Driver
  close_if none d = d
  close_if (some client) d = close_id client.id d

  unfoldable pub close_client : String → PulsarClient → Driver → Driver
  unfolding insert
  close_client key c d =
      let d' = close_if c.client d in
      record d' { client_cache = insert key (record c { client = none }) d'.client_cache }

  unfoldable pub reconnect_client : String → PulsarClient → Driver → Result Client × Driver
  unfolding get_client close_client
  reconnect_client key c d =
      get_client key (record c { client = none }) c.pulsar_url c.token (close_client key c d)

  abbrev pub new_entry : String → String → PulsarClient
  new_entry url token = record { client = none; pulsar_url = url; token = token }

  abbrev pub get_entry :
      String → String → Bool → String → PulsarClient → Driver → Result Client × Driver
  get_entry url token reset key c d =
      if reset then reconnect_client key c d else get_client key c url token d

  abbrev pub get_found :
      String → String → Bool → String → Option PulsarClient → Driver → Result Client × Driver
  get_found url token reset key (some c) d = get_entry url token reset key c d
  get_found url token reset key none d =
      get_entry url token reset key (new_entry url token)
        (record d { client_cache = insert key (new_entry url token) d.client_cache })

  unfoldable pub get_pulsar_client : String → String → Bool → Driver → Result Client × Driver
  unfolding reconnect_client get_client lookup insert
  get_pulsar_client url token reset d =
      let key = url <> token in get_found url token reset key (lookup key d.client_cache) d
