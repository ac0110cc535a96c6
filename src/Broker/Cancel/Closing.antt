-- ===== src/Broker/Cancel/Closing.antt =====
-- That a run closes the consumers of the webhooks that it cancels, and no others.
use pulsar_beam.Prelude.{
  not, ℕ, String, Bool, true, false, ◌&&◌, none, some, List, [], ◌∷◌, ◌≡◌, refl, ◌∙◌, arith,
  if◌then◌else◌, ◌==◌, eq_iff, contains, Bool-cases, inl, inr,
}
use pulsar_beam.Prelude.Maps.{Map, lookup}
use pulsar_beam.Model.Topic.{TopicConfig}
use pulsar_beam.Broker.Webhook.{is_in, run_configs}
use pulsar_beam.Broker.Webhook.Runs.{wanted, listed, lookup-listed, run_configs-keys}
use pulsar_beam.Driver.{Consumer}
use pulsar_beam.Driver.Consumers.Subscriptions.{IsSubscribed}
use pulsar_beam.Broker.Cancel.{Beam, drop_all, run_beam}
use pulsar_beam.Broker.Cancel.Steps.{IsBacked, has, IsStep, transported, drop_one-IsStep}

-- What the whole loop does, over the keys of a list.
record IsLoop (keys : Map Bool) (rest : Map ℕ) (b b' : Beam) : Type 0 where
  webhooks :
      (key : String)
      → lookup key b'.registry.webhooks ≡ (
          if listed key rest && not (is_in (lookup key keys))
          then none
          else lookup key b.registry.webhooks)
  consumers :
      (key : String)
      → lookup key b'.driver.consumer_cache ≡ (
          if listed key rest
            && not (is_in (lookup key keys))
            && has (lookup key b.registry.webhooks)
          then none
          else lookup key b.driver.consumer_cache)
  closes :
      (key : String) (c : ℕ) (consumer : Consumer)
      → listed key rest ≡ true
      → is_in (lookup key keys) ≡ false
      → lookup key b.registry.webhooks ≡ some c
      → IsSubscribed b.driver key consumer
      → contains b'.driver.closed consumer.id ≡ true
  keeps_closed : (id : ℕ) → contains b.driver.closed id ≡ true → contains b'.driver.closed id ≡ true
  closed_channels : b'.registry.closed ≡ b.registry.closed
  same_next : b'.registry.next ≡ b.registry.next
  backed : IsBacked b'

module _ (keys : Map Bool) where
  later_closes :
      (k : String) (e : ℕ) (rest : Map ℕ) (b middle b' : Beam) (key : String) (c : ℕ)
      (consumer : Consumer)
      → IsStep keys k b middle
      → IsLoop keys rest middle b'
      → listed key ((k, e) ∷ rest) ≡ true
      → is_in (lookup key keys) ≡ false
      → lookup key b.registry.webhooks ≡ some c
      → IsSubscribed b.driver key consumer
      → contains b'.driver.closed consumer.id ≡ true
  later_closes k e rest b middle b' key c consumer one all l gone found s =
      elim (Bool-cases (k == key)) [
        | inl same ↦
            let q : key ≡ k = ground (arith, eq_iff k key) in
            all.keeps_closed consumer.id
              (one.closes c consumer (rw q at gone) (rw q at found) (rw q at s))
        | inr differs ↦
            let web = one.webhooks key in
            let cached = one.consumers key in
            all.closes key c consumer (rw differs at l) gone (rw differs at web ∙ found)
              (transported b.driver middle.driver key consumer (rw differs at cached) s)
      ]

  drop_all-IsLoop :
      (rest : Map ℕ) (b : Beam)
      → IsBacked b
      → (b' : Beam) × (drop_all keys rest b ≡ some b') × IsLoop keys rest b b'
  unfolding drop_all
  drop_all-IsLoop [] b back = (
    b,
    refl,
    record {
      webhooks = λ key. refl;
      consumers = λ key. refl;
      closes = λ key c consumer l. cc;
      keeps_closed = λ id h. h;
      closed_channels = refl;
      same_next = refl;
      backed = back;
    },
  )
  drop_all-IsLoop ((k, e) ∷ rest) b back =
      let (middle, first, one) = drop_one-IsStep keys k b back in
      let (b', later, all) = drop_all-IsLoop rest middle one.backed in
      (
        b',
        rw (first, drop_all) later,
        record {
          webhooks = λ key. ground (arith, one.webhooks key, all.webhooks key);
          consumers = λ key. ground (arith, one.webhooks key, one.consumers key, all.consumers key);
          closes = λ key c consumer. later_closes k e rest b middle b' key c consumer one all;
          keeps_closed = λ id h. all.keeps_closed id (one.keeps_closed id h);
          closed_channels = all.closed_channels ∙ one.closed_channels;
          same_next = all.same_next ∙ one.same_next;
          backed = all.backed;
        },
      )

-- What the documents say of every key after a run.
pub record IsServed (cfgs : List TopicConfig) (b b' : Beam) : Type 0 where
  pub webhooks :
      (key : String)
      → lookup key b'.registry.webhooks
        ≡ (if wanted cfgs key then lookup key b.registry.webhooks else none)
  pub closes :
      (key : String) (c : ℕ) (consumer : Consumer)
      → wanted cfgs key ≡ false
      → lookup key b.registry.webhooks ≡ some c
      → IsSubscribed b.driver key consumer
      → (lookup key b'.driver.consumer_cache ≡ none)
        × (contains b'.driver.closed consumer.id ≡ true)
  pub keeps :
      (key : String)
      → wanted cfgs key ≡ true
      → lookup key b'.driver.consumer_cache ≡ lookup key b.driver.consumer_cache
  pub closed_channels : b'.registry.closed ≡ b.registry.closed
  pub same_next : b'.registry.next ≡ b.registry.next
  pub backed : IsBacked b'

has_listed : (key : String) (c : ℕ) (m : Map ℕ) → lookup key m ≡ some c → listed key m ≡ true
has_listed key c m h = elim (Bool-cases (listed key m)) [
  | inl is ↦ is
  | inr none_there ↦ cc (lookup-listed key m none_there ∙ refl)
]

-- From a registry whose channels are all open and have a consumer behind them, a run does not panic,
-- and leaves it so. It keeps exactly the channels whose key an activated webhook of the documents
-- has; the consumer behind every other one is closed and forgotten, and those of the webhooks that
-- are wanted are left alone.
pub run_beam-IsServed :
    (cfgs : List TopicConfig) (b : Beam)
    → IsBacked b
    → (b' : Beam) × ((run_beam cfgs b).1 ≡ some b') × IsServed cfgs b b'
unfolding run_beam
run_beam-IsServed cfgs b back =
    let keys = (run_configs b.registry cfgs ([], [])).0 in
    let (b', done, all) = drop_all-IsLoop keys b.registry.webhooks b back in
    (
      b',
      done,
      record {
        webhooks = λ key. ground (
          arith,
          all.webhooks key,
          run_configs-keys b.registry cfgs ([], []) key,
          lookup-listed key b.registry.webhooks,
        );
        closes = λ key c consumer gone found s.
            let l = has_listed key c b.registry.webhooks found in
            let unkept : is_in (lookup key keys) ≡ false =
              ground (arith, run_configs-keys b.registry cfgs ([], []) key) in
            let cached = all.consumers key in
            (rw (l, unkept, found) at cached, all.closes key c consumer l unkept found s);
        keeps = λ key want.
            ground (arith, all.consumers key, run_configs-keys b.registry cfgs ([], []) key, want);
        closed_channels = all.closed_channels;
        same_next = all.same_next;
        backed = all.backed;
      },
    )
