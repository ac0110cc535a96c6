-- ===== src/Driver/Producers.antt =====
-- src/pulsardriver/pulsar-producer.go.
use pulsar_beam.Prelude.{
  ℕ, suc, String, Bool, true, false, Option, none, some, List, [], ◌∷◌, Result, ok, err, nat_eq,
  if◌then◌else◌,
}
use pulsar_beam.Strings.{◌<>◌}
use pulsar_beam.Util.Cache.{Cache}
use pulsar_beam.Util.Cache
use pulsar_beam.Driver.{Client, Producer, Cluster, PulsarProducer, Driver, called, close_id}
use pulsar_beam.Driver.Clients.{get_pulsar_client}

-- `c.producer = …` through the pointer.
unfoldable pub set_producer : ℕ → Option Producer → Driver → Driver
set_producer addr p d = record d {
  producers =
      λ a. if nat_eq addr a then record (d.producers addr) { producer = p } else d.producers a;
}

abbrev pub close_if : Option Producer → Driver → Driver
close_if none d = d
close_if (some p) d = close_id p.id d

unfoldable pub close_producer : ℕ → Driver → Driver
unfolding set_producer
close_producer addr d = close_if (d.producers addr).producer (set_producer addr none d)

-- The expiry callback, for each value that has left the cache.
unfoldable pub close_expired : List (String × ℕ) → Driver → Driver
unfolding close_producer
close_expired [] d = d
close_expired ((key, addr) ∷ rest) d = close_producer addr (close_expired rest d)

module _ (cluster : Cluster) where
  abbrev pub now : Driver → ℕ
  now d = cluster.now d.calls

  abbrev pub quiet : Cache ℕ → Cache ℕ
  quiet c = record c { callbacks = [] }

  -- `ProducerCache.Get` and the calls of its callback.
  unfoldable pub cached_producer : String → Driver → Option ℕ × Driver
  unfolding Cache.get close_expired
  cached_producer key d =
      let (found, c) = Cache.get (now d) key (quiet d.producer_cache) in
      (found, close_expired c.callbacks (record d { producer_cache = quiet c }))

  abbrev pub created : ℕ → Client → String → Driver → Option String → Result Producer × Driver
  created addr client topic d (some e) = (err e, called d)
  created addr client topic d none =
      let p : Producer = record { id = d.calls; client = client; topic = topic } in
      (ok p, set_producer addr (some p) (called d))

  abbrev pub with_client : ℕ → PulsarProducer → Result Client × Driver → Result Producer × Driver
  with_client addr c (err e, d) = (err e, d)
  with_client addr c (ok client, d) =
      created addr client c.topic d (cluster.create_producer d.calls client c.topic)

  abbrev pub producer_or_new : ℕ → Driver → Option Producer → Result Producer × Driver
  producer_or_new addr d (some p) = (ok p, d)
  producer_or_new addr d none =
      let c = d.producers addr in
      with_client addr c (get_pulsar_client cluster c.pulsar_url c.token false d)

  unfoldable pub get_producer : ℕ → Driver → Result Producer × Driver
  unfolding get_pulsar_client set_producer
  get_producer addr d = producer_or_new addr d (d.producers addr).producer

  unfoldable pub reconnect_producer : ℕ → Driver → Result Producer × Driver
  unfolding close_producer get_producer
  reconnect_producer addr d = get_producer addr (close_producer addr d)

  abbrev pub store : String → ℕ → Result Producer × Driver → Result Producer × Driver
  store key addr (err e, d) = (err e, d)
  store key addr (ok p, d) =
      (ok p, record d { producer_cache = Cache.set (now d) key addr d.producer_cache })

  abbrev pub try_again : ℕ → Result Client × Driver → Result Producer × Driver
  try_again addr (err e, d) = (err e, d)
  try_again addr (ok client, d) = get_producer addr d

  abbrev pub or_again : String → String → ℕ → Result Producer × Driver → Result Producer × Driver
  or_again url token addr (ok p, d) = (ok p, d)
  or_again url token addr (err e, d) = try_again addr (get_pulsar_client cluster url token true d)

  abbrev pub allocate : String → String → String → Driver → Driver
  allocate url token topic d = record d {
    allocated = suc d.allocated;
    producers = λ a.
        if nat_eq d.allocated a
        then record { producer = none; pulsar_url = url; token = token; topic = topic }
        else d.producers a;
  }

  abbrev pub producer_of :
      String → String → String → Bool → Option ℕ × Driver → Result Producer × Driver
  producer_of url token topic reconnect (some addr, d) =
      if reconnect then reconnect_producer addr d else get_producer addr d
  producer_of url token topic reconnect (none, d) =
      store (url <> token <> topic) d.allocated
        (or_again url token d.allocated (get_producer d.allocated (allocate url token topic d)))

  unfoldable pub get_pulsar_producer :
      String → String → String → Bool → Driver → Result Producer × Driver
  unfolding cached_producer reconnect_producer get_producer get_pulsar_client Cache.set
  get_pulsar_producer url token topic reconnect d =
      producer_of url token topic reconnect (cached_producer (url <> token <> topic) d)
