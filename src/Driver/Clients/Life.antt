-- ===== src/Driver/Clients/Life.antt =====
-- The clients in the cache are open, and no two entries hold the same one.
use pulsar_beam.Prelude.{
  ap, ℕ, suc, ◌<◌, ◌≤◌, String, Bool, true, false, Option, none, some, Result, ok, err, ◌≡◌, refl,
  if◌then◌else◌, ◌==◌, arith, eq_iff, eq_refl, ◌∷◌, contains, Bool-cases, Option-cases, inl, inr,
}
use pulsar_beam.Prelude.Maps.{lookup, insert, lookup-insert}
use pulsar_beam.Strings.{◌<>◌}
use pulsar_beam.Driver.Clients.Sharing.{get_pulsar_client-IsCached}
use pulsar_beam.Driver.{Client, ClientOptions, Cluster, PulsarClient, Driver, called}
use pulsar_beam.Driver.Clients.{
  client_options, get_client, get_pulsar_client, keep_client, client_or_new, new_pulsar_client,
  open_with, opened, reconnect_client, close_client, new_entry, get_found, get_entry,
}

abbrev id_of : Option Client → Option ℕ
id_of none = none
id_of (some client) = some client.id

abbrev held_by : Option PulsarClient → Option ℕ
held_by none = none
held_by (some c) = id_of c.client

-- The number of the client that the cache holds under a key.
unfoldable pub held : Driver → String → Option ℕ
held d key = held_by (lookup key d.client_cache)

pub record IsSound (d : Driver) : Type 0 where
  pub live :
      (key : String) (id : ℕ)
      → held d key ≡ some id
      → (contains d.closed id ≡ false) × (id < d.calls)
  pub past : (id : ℕ) → contains d.closed id ≡ true → id < d.calls
  pub distinct :
      (key other : String) (id : ℕ) → held d key ≡ some id → held d other ≡ some id → key ≡ other

-- The two things that happen to the cache, as it shows.
opened-IsSound :
    (d d' : Driver) (key : String)
    → IsSound d
    → ((j : String) → held d' j ≡ (if key == j then some d.calls else held d j))
    → d'.calls ≡ suc d.calls
    → d'.closed ≡ d.closed
    → IsSound d'
opened-IsSound d d' key s shows calls closed = record {
  live = λ j id h.
      ground
        (arith, shows j, s.live j id, s.past id, Bool-cases (contains d.closed id), eq_iff key j);
  past = λ id h. ground (arith, s.past id);
  distinct = λ j k id h h'. ground (
    arith,
    shows j,
    shows k,
    s.live j id,
    s.live k id,
    s.distinct j k id,
    eq_iff key j,
    eq_iff key k,
  );
}

closed-IsSound :
    (d d' : Driver) (key : String) (id : ℕ)
    → IsSound d
    → held d key ≡ some id
    → ((j : String) → held d' j ≡ (if key == j then none else held d j))
    → d'.calls ≡ d.calls
    → d'.closed ≡ id ∷ d.closed
    → IsSound d'
closed-IsSound d d' key id s was shows calls closed = record {
  live = λ j n h.
      ground (arith, shows j, s.live j n, s.live key id, s.distinct key j id, eq_iff key j);
  past = λ n h. ground (arith, s.past n, s.live key id);
  distinct =
      λ j k n h h'. ground (arith, shows j, shows k, s.distinct j k n, eq_iff key j, eq_iff key k);
}

same-IsSound :
    (d d' : Driver)
    → IsSound d
    → ((j : String) → held d' j ≡ held d j)
    → d.calls ≤ d'.calls
    → d'.closed ≡ d.closed
    → IsSound d'
same-IsSound d d' s shows calls closed = record {
  live = λ j n h. ground (arith, shows j, s.live j n);
  past = λ n h. ground (arith, s.past n);
  distinct = λ j k n h h'. ground (arith, shows j, shows k, s.distinct j k n);
}

-- A new client has the number of its call, and an attempt changes nothing else.
abbrev Opens : Driver → Result Client × Driver → Type 0
Opens d (ok client, d') = (client.id ≡ d.calls) × (d' ≡ called d)
Opens d (err e, d') =
    (d'.client_cache ≡ d.client_cache) × (d.calls ≤ d'.calls) × (d'.closed ≡ d.closed)

module _ (cluster : Cluster) where
  opened-Opens :
      (options : ClientOptions) (d : Driver) (e : Option String)
      → Opens d (opened cluster options d e)
  opened-Opens options d none = (refl, refl)
  opened-Opens options d (some e) = (refl, omega arith, refl)

  open_with-Opens : (d : Driver) (k : Result ClientOptions) → Opens d (open_with cluster d k)
  open_with-Opens d (err e) = (refl, omega arith, refl)
  open_with-Opens d (ok options) = opened-Opens options d (cluster.new_client d.calls options)

  keep_client-IsSound :
      (key : String) (c : PulsarClient) (d : Driver) (x : Result Client × Driver)
      → Opens d x
      → IsSound d
      → IsSound (keep_client cluster key c x).1
  unfolding held
  keep_client-IsSound key c d (err e, d') (cache, calls, closed) s =
      same-IsSound d d' s (λ j. rw cache refl) calls closed
  keep_client-IsSound key c d (ok client, d') (id, after) s =
      opened-IsSound d _ key s (λ j. rw (after, lookup-insert) (ground (arith, eq_iff key j)))
        (rw after refl) (rw after refl)

  new_pulsar_client-IsSound :
      (key url token : String) (c : PulsarClient) (d : Driver)
      → IsSound d
      → IsSound (keep_client cluster key c (new_pulsar_client cluster url token d)).1
  unfolding new_pulsar_client
  new_pulsar_client-IsSound key url token c d s =
      keep_client-IsSound key c d (open_with cluster d (client_options cluster url token))
        (open_with-Opens d (client_options cluster url token)) s

  client_or_new-IsSound :
      (key url token : String) (c : PulsarClient) (d : Driver) (o : Option Client)
      → IsSound d
      → IsSound (client_or_new cluster key c url token d o).1
  client_or_new-IsSound key url token c d (some client) s = s
  client_or_new-IsSound key url token c d none s = new_pulsar_client-IsSound key url token c d s

  close_client-IsSound :
      (key : String) (c : PulsarClient) (d : Driver)
      → lookup key d.client_cache ≡ some c
      → IsSound d
      → IsSound (close_client cluster key c d)
  unfolding close_client held
  close_client-IsSound key c d l s = elim (Option-cases c.client) [
    | inl nothing ↦ rw nothing (
        same-IsSound d _ s (λ j. rw lookup-insert (ground (arith, eq_iff key j, l, nothing)))
          (omega arith) refl)
    | inr (client, there) ↦ rw there (
        closed-IsSound d _ key client.id s (rw (l, there) refl)
          (λ j. rw lookup-insert (ground (arith, eq_iff key j))) refl refl)
  ]

  get_entry-IsSound :
      (url token key : String) (reset : Bool) (c : PulsarClient) (d : Driver)
      → lookup key d.client_cache ≡ some c
      → IsSound d
      → IsSound (get_entry cluster url token reset key c d).1
  unfolding get_client reconnect_client
  get_entry-IsSound url token key false c d l s = client_or_new-IsSound key url token c d c.client s
  get_entry-IsSound url token key true c d l s =
      new_pulsar_client-IsSound key c.pulsar_url c.token (record c { client = none })
        (close_client cluster key c d) (close_client-IsSound key c d l s)

  new_entry-IsSound :
      (url token key : String) (d : Driver)
      → lookup key d.client_cache ≡ none
      → IsSound d
      → IsSound
          (record d { client_cache = insert key (new_entry cluster url token) d.client_cache })
  unfolding held
  new_entry-IsSound url token key d l s =
      same-IsSound d _ s (λ j. rw lookup-insert (ground (arith, eq_iff key j, l))) (omega arith)
        refl

  get_found-IsSound :
      (url token key : String) (reset : Bool) (found : Option PulsarClient) (d : Driver)
      → lookup key d.client_cache ≡ found
      → IsSound d
      → IsSound (get_found cluster url token reset key found d).1
  get_found-IsSound url token key reset (some c) d l s =
      get_entry-IsSound url token key reset c d l s
  get_found-IsSound url token key reset none d l s =
      get_entry-IsSound url token key reset (new_entry cluster url token) _
        (rw (lookup-insert, eq_refl) refl) (new_entry-IsSound url token key d l s)

  -- A request for a client keeps the clients in the cache open, apart from each other, and made
  -- before now, whether it connects, connects again or fails; and a client that it returns is open.
  pub get_pulsar_client-IsSound :
      (url token : String) (reset : Bool) (d d' : Driver) (r : Result Client)
      → IsSound d
      → get_pulsar_client cluster url token reset d ≡ (r, d')
      → IsSound d' × ((client : Client) → r ≡ ok client → contains d'.closed client.id ≡ false)
  unfolding held
  get_pulsar_client-IsSound url token reset d d' r s h =
      let after : (get_pulsar_client cluster url token reset d).1 ≡ d' = ap (λ x. x.1) h in
      let sound : IsSound d' = rw (← after) (kept url token reset d s) in
      (
        sound,
        λ client e.
            let c = get_pulsar_client-IsCached cluster url token reset d d' client (rw (← e) h) in
            (sound.live (url <> token) client.id (rw (c.at_key, c.held) refl)).0,
      )
    where
      kept :
          (url token : String) (reset : Bool) (d : Driver)
          → IsSound d
          → IsSound (get_pulsar_client cluster url token reset d).1
      kept url token reset d s =
          unfold get_pulsar_client in
          get_found-IsSound url token (url <> token) reset (lookup (url <> token) d.client_cache) d
            refl s
