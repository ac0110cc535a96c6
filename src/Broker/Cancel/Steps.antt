-- ===== src/Broker/Cancel/Steps.antt =====
-- What one round of the loop that cancels does to channels and consumers.
use pulsar_beam.Prelude.{
  not, ℕ, String, Bool, true, false, ◌&&◌, Option, none, some, ◌≡◌, ◌⊎◌, refl, ◌∙◌, arith,
  if◌then◌else◌, ◌==◌, eq_iff, contains, Option-cases, Bool-cases, inl, inr,
}
use pulsar_beam.Prelude.Maps.{Map, lookup, delete, lookup-delete}
use pulsar_beam.Broker.Webhook.{delete_webhook, is_in}
use pulsar_beam.Broker.Webhook.Runs.{IsOpen}
use pulsar_beam.Driver.{Consumer, Driver}
use pulsar_beam.Driver.Consumers.Subscriptions.{IsSubscribed}
use pulsar_beam.Driver.Consumers.Cancelling.{cancel_pulsar_consumer-IsCancelled}
use pulsar_beam.Broker.Cancel.{Beam, cancel_consumer, cancelled, drop_one}

-- Every channel is open and has a consumer behind it.
pub record IsBacked (b : Beam) : Type 0 where
  pub open_channels : IsOpen b.registry
  pub consumer :
      (key : String) (c : ℕ)
      → lookup key b.registry.webhooks ≡ some c
      → (consumer : Consumer) × IsSubscribed b.driver key consumer

-- What cancelling one key does, for a key with a channel.
record IsDropped (k : String) (b b' : Beam) : Type 0 where
  webhooks :
      (key : String)
      → lookup key b'.registry.webhooks
        ≡ (if k == key then none else lookup key b.registry.webhooks)
  consumers :
      (key : String)
      → lookup key b'.driver.consumer_cache
        ≡ (if k == key then none else lookup key b.driver.consumer_cache)
  closes :
      (consumer : Consumer)
      → IsSubscribed b.driver k consumer
      → contains b'.driver.closed consumer.id ≡ true
  keeps_closed : (id : ℕ) → contains b.driver.closed id ≡ true → contains b'.driver.closed id ≡ true
  closed_channels : b'.registry.closed ≡ b.registry.closed
  same_next : b'.registry.next ≡ b.registry.next

IsSubscribed-unique :
    (d : Driver) (key : String) (one other : Consumer)
    → IsSubscribed d key one
    → IsSubscribed d key other
    → one ≡ other
IsSubscribed-unique d key one other s t =
    let at_one = s.at_key in
    let at_other = t.at_key in let held_one = s.held in let held_other = t.held in cc

abbrev pub has : Option ℕ → Bool
has none = false
has (some c) = true

-- What a round of the loop does, for any key.
pub record IsStep (keys : Map Bool) (k : String) (b b' : Beam) : Type 0 where
  pub webhooks :
      (key : String)
      → lookup key b'.registry.webhooks ≡ (
          if k == key && not (is_in (lookup key keys))
          then none
          else lookup key b.registry.webhooks)
  pub consumers :
      (key : String)
      → lookup key b'.driver.consumer_cache ≡ (
          if k == key && not (is_in (lookup key keys)) && has (lookup key b.registry.webhooks)
          then none
          else lookup key b.driver.consumer_cache)
  pub closes :
      (c : ℕ) (consumer : Consumer)
      → is_in (lookup k keys) ≡ false
      → lookup k b.registry.webhooks ≡ some c
      → IsSubscribed b.driver k consumer
      → contains b'.driver.closed consumer.id ≡ true
  pub keeps_closed :
      (id : ℕ) → contains b.driver.closed id ≡ true → contains b'.driver.closed id ≡ true
  pub closed_channels : b'.registry.closed ≡ b.registry.closed
  pub same_next : b'.registry.next ≡ b.registry.next
  pub backed : IsBacked b'

pub transported :
    (d d' : Driver) (key : String) (consumer : Consumer)
    → lookup key d'.consumer_cache ≡ lookup key d.consumer_cache
    → IsSubscribed d key consumer
    → IsSubscribed d' key consumer
transported d d' key consumer e s = record { entry = s.entry; at_key = e ∙ s.at_key; held = s.held }

module _ (keys : Map Bool) where
  drop_one-IsDropped :
      (k : String) (b : Beam) (c : ℕ)
      → IsBacked b
      → is_in (lookup k keys) ≡ false
      → lookup k b.registry.webhooks ≡ some c
      → (b' : Beam) × (drop_one keys k b ≡ some b') × IsDropped k b b'
  unfolding drop_one cancel_consumer delete_webhook cancelled
  drop_one-IsDropped k b c back gone found =
      let (consumer, sub) = back.consumer k c found in
      let (d', done, ends) = cancel_pulsar_consumer-IsCancelled k b.driver consumer sub in
      (
        record {
          registry = record b.registry { webhooks = delete k b.registry.webhooks };
          driver = d';
        },
        rw (gone, found, back.open_channels.is_open k c found, done) refl,
        record {
          webhooks = λ key. lookup-delete k key b.registry.webhooks;
          consumers = λ key. elim (Bool-cases (k == key)) [
            | inl same ↦
                let e : k ≡ key = ground (arith, eq_iff k key) in
                let forgotten = ends.forgotten in rw same (rw e at forgotten)
            | inr differs ↦ rw differs (ends.others key differs)
          ];
          closes = λ other sub'.
              rw (ends.closes, IsSubscribed-unique b.driver k other consumer sub' sub)
                (ground arith);
          keeps_closed = λ id h. rw ends.closes (ground (arith, h));
          closed_channels = refl;
          same_next = refl;
        },
      )

  idle-IsStep :
      (k : String) (b : Beam)
      → IsBacked b
      → (is_in (lookup k keys) ≡ true) ⊎ (lookup k b.registry.webhooks ≡ none)
      → IsStep keys k b b
  idle-IsStep k b back (inl kept) = record {
    webhooks = λ key. ground (arith, eq_iff k key);
    consumers = λ key. ground (arith, eq_iff k key);
    closes = λ c consumer gone found s. cc;
    keeps_closed = λ id h. h;
    closed_channels = refl;
    same_next = refl;
    backed = back;
  }
  idle-IsStep k b back (inr missing) = record {
    webhooks = λ key. ground (arith, eq_iff k key);
    consumers = λ key. ground (arith, eq_iff k key);
    closes = λ c consumer gone found s. cc;
    keeps_closed = λ id h. h;
    closed_channels = refl;
    same_next = refl;
    backed = back;
  }

  dropped-IsStep :
      (k : String) (b b' : Beam) (c : ℕ)
      → IsBacked b
      → is_in (lookup k keys) ≡ false
      → lookup k b.registry.webhooks ≡ some c
      → IsDropped k b b'
      → IsStep keys k b b'
  dropped-IsStep k b b' c back gone found d = record {
    webhooks = λ key. ground (arith, eq_iff k key, d.webhooks key);
    consumers = λ key. ground (arith, eq_iff k key, d.consumers key);
    closes = λ _ consumer _ _ s. d.closes consumer s;
    keeps_closed = d.keeps_closed;
    closed_channels = d.closed_channels;
    same_next = d.same_next;
    backed = record {
      open_channels = record {
        is_open = λ key e h.
            rw d.closed_channels
              (back.open_channels.is_open key e (ground (arith, d.webhooks key)));
      };
      consumer = λ key e h. elim (Bool-cases (k == key)) [
        | inl same ↦ cc (rw (d.webhooks key, same) at h)
        | inr differs ↦
            let (consumer, s) = back.consumer key e (ground (arith, d.webhooks key)) in
            let kept = d.consumers key in
            (consumer, transported b.driver b'.driver key consumer (rw differs at kept) s)
      ];
    };
  }

  pub drop_one-IsStep :
      (k : String) (b : Beam)
      → IsBacked b
      → (b' : Beam) × (drop_one keys k b ≡ some b') × IsStep keys k b b'
  unfolding drop_one cancel_consumer delete_webhook cancelled
  drop_one-IsStep k b back = elim (Bool-cases (is_in (lookup k keys))) [
    | inl kept ↦ (b, rw kept refl, idle-IsStep k b back (inl kept))
    | inr gone ↦ elim (Option-cases (lookup k b.registry.webhooks)) [
      | inl missing ↦ (b, rw (gone, missing) refl, idle-IsStep k b back (inr missing))
      | inr (c, found) ↦
          let (b', done, d) = drop_one-IsDropped k b c back gone found in
          (b', done, dropped-IsStep k b b' c back gone found d)
    ]
  ]
