-- ===== src/Broker/System/Asking.antt =====
-- What asking for a consumer, entering a channel and closing one do to the consumers behind the
-- channels.
use pulsar_beam.Prelude.{
  ℕ, String, false, none, some, Result, ok, err, ◌≡◌, ◌≢◌, refl, arith, nat_eq, ◌==◌, eq_iff,
  Option-cases, Bool-cases, inl, inr,
}
use pulsar_beam.Prelude.Maps.{lookup}
use pulsar_beam.Broker.Webhook.{Start}
use pulsar_beam.Broker.Consume.{enter, close_channel}
use pulsar_beam.Broker.Cancel.{Beam}
use pulsar_beam.Broker.Cancel.Steps.{IsBacked, transported}
use pulsar_beam.Driver.{Consumer, Cluster, Driver}
use pulsar_beam.Driver.Consumers.Subscriptions.{
  IsSubscribed, get_pulsar_consumer-IsSubscribed, get_pulsar_consumer-cached,
}
use pulsar_beam.Driver.Consumers.Frame.{get_pulsar_consumer-Keeps}
use pulsar_beam.Broker.System.{subscribe}
use pulsar_beam.Broker.System.Ownership.{IsMade, lookup-enter, enter-IsOpen}

-- What asking for a consumer under a key comes to.
pub record IsAsked (key : String) (d : Driver) (x : Result Consumer × Driver) : Type 0 where
  pub others :
      (other : String)
      → (key == other) ≡ false
      → lookup other x.1.consumer_cache ≡ lookup other d.consumer_cache
  pub made :
      (consumer : Consumer) (d' : Driver) → x ≡ (ok consumer, d') → IsSubscribed d' key consumer
  pub cached : (consumer : Consumer) → IsSubscribed d key consumer → x ≡ (ok consumer, d)

pub subscribe-IsAsked :
    (cluster : Cluster) (st : Start) (d : Driver)
    → IsAsked st.subscription_key d (subscribe cluster st d)
unfolding subscribe
subscribe-IsAsked cluster st d = record {
  others = λ other differs.
      get_pulsar_consumer-Keeps cluster st.subscription_key other differs st.url st.token st.topic
        st.webhook.subscription st.webhook.initial_position st.webhook.subscription_type d;
  made = λ consumer d' h.
      get_pulsar_consumer-IsSubscribed cluster st.url st.token st.topic st.webhook.subscription
        st.webhook.initial_position st.webhook.subscription_type st.subscription_key d d' consumer
        h;
  cached = λ consumer h.
      get_pulsar_consumer-cached cluster st.url st.token st.topic st.webhook.subscription
        st.webhook.initial_position st.webhook.subscription_type st.subscription_key d consumer h;
}

-- Once there is a consumer under the key, the driver backs the channels that it backed.
pub asked-IsBacked :
    (key : String) (b : Beam) (consumer : Consumer) (d : Driver)
    → IsAsked key b.driver (ok consumer, d)
    → IsBacked b
    → IsBacked (record b { driver = d })
asked-IsBacked key b consumer d asked back = record {
  open_channels = back.open_channels;
  consumer = λ k c h. elim (Bool-cases (key == k)) [
    | inl same ↦
        let e : key ≡ k = ground (arith, eq_iff key k) in
        (consumer, rw (← e) (asked.made consumer d refl))
    | inr differs ↦
        let (other, sub) = back.consumer k c h in
        (other, transported b.driver d k other (asked.others k differs) sub)
  ];
}

-- Without one, no channel is entered under the key.
pub failed-missing :
    (key : String) (b : Beam) (e : String) (d : Driver)
    → IsAsked key b.driver (err e, d)
    → IsBacked b
    → lookup key b.registry.webhooks ≡ none
failed-missing key b e d asked back = elim (Option-cases (lookup key b.registry.webhooks)) [
  | inl missing ↦ missing
  | inr (c, found) ↦
      let (consumer, sub) = back.consumer key c found in let clash = asked.cached consumer sub in cc
]

pub failed-IsBacked :
    (key : String) (b : Beam) (e : String) (d : Driver)
    → IsAsked key b.driver (err e, d)
    → IsBacked b
    → IsBacked (record b { driver = d })
failed-IsBacked key b e d asked back = record {
  open_channels = back.open_channels;
  consumer = λ k c h. elim (Bool-cases (key == k)) [
    | inl same ↦
        let e : key ≡ k = ground (arith, eq_iff key k) in
        let missing = failed-missing key b _ d asked back in cc
    | inr differs ↦
        let (other, sub) = back.consumer k c h in
        (other, transported b.driver d k other (asked.others k differs) sub)
  ];
}

pub enter-IsBacked :
    (key : String) (b : Beam) (consumer : Consumer)
    → IsMade b.registry
    → IsSubscribed b.driver key consumer
    → IsBacked b
    → IsBacked (record b { registry = enter key b.registry })
enter-IsBacked key b consumer made sub back = record {
  open_channels = enter-IsOpen key b.registry made back.open_channels;
  consumer = λ k c h. elim (Bool-cases (key == k)) [
    | inl same ↦ let e : key ≡ k = ground (arith, eq_iff key k) in (consumer, rw (← e) sub)
    | inr differs ↦ back.consumer k c (ground (arith, lookup-enter key k b.registry))
  ];
}

pub close-IsBacked :
    (c : ℕ) (b : Beam)
    → ((key : String) → lookup key b.registry.webhooks ≢ some c)
    → IsBacked b
    → IsBacked (record b { registry = close_channel c b.registry })
close-IsBacked c b away back = record {
  open_channels = record {
    is_open = λ key e h. elim (Bool-cases (nat_eq c e)) [
      | inl same ↦ let e≡c : e ≡ c = ground arith in absurd (away key (rw e≡c at h))
      | inr differs ↦ rw differs (back.open_channels.is_open key e h)
    ];
  };
  consumer = back.consumer;
}
