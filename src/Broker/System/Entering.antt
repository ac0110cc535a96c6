-- ===== src/Broker/System/Entering.antt =====
-- The loops that have subscribed and have not entered their channel: their consumers stay subscribed.
use pulsar_beam.Prelude.{
  String, List, [], ◌∷◌, Result, ok, err, ◌≡◌, ◌≢◌, sym, ◌==◌, eq_iff, All, All-imp, Bool-cases,
  inl, inr,
}
use pulsar_beam.Prelude.Maps.{lookup}
use pulsar_beam.Model.Topic.{
  get_subscription_type, get_initial_position, SubscriptionType, InitialPosition,
}
use pulsar_beam.Broker.Webhook.{Start}
use pulsar_beam.Broker.Cancel.{Beam}
use pulsar_beam.Broker.Cancel.Steps.{IsStep, transported}
use pulsar_beam.Driver.{Consumer, Cluster, Driver}
use pulsar_beam.Driver.Consumers.Subscriptions.{IsSubscribed}
use pulsar_beam.Broker.System.{
  Loop, State, IsAway, subscribe, begun, parsed, begin_loop, connected, reconnect_loop,
}
use pulsar_beam.Broker.System.Asking.{IsAsked, subscribe-IsAsked}
use pulsar_beam.Broker.System.Cancelling.{IsRunning}

-- There is a consumer under the key of each of them.
abbrev pub IsReady : Driver → List Start → Type 0
IsReady d entering =
    All (λ st. (consumer : Consumer) × IsSubscribed d st.subscription_key consumer) entering

asked-kept :
    (key k : String) (d : Driver) (x : Result Consumer × Driver) (consumer : Consumer)
    → IsAsked key d x
    → IsSubscribed d k consumer
    → IsSubscribed x.1 k consumer
asked-kept key k d (r, d') consumer asked sub = elim (Bool-cases (key == k)) [
  | inl same ↦
      let e : key ≡ k = (eq_iff key k).0 same in
      let again = asked.cached consumer (rw (← e) at sub) in
      let at_d : d ≡ d' = cc in rw at_d at sub
  | inr differs ↦ transported d d' k consumer (asked.others k differs) sub
]

pub asked-IsReady :
    (key : String) (d : Driver) (x : Result Consumer × Driver) (entering : List Start)
    → IsAsked key d x
    → IsReady d entering
    → IsReady x.1 entering
asked-IsReady key d x entering asked =
    All-imp _ _ entering
      (λ st (consumer, sub). (consumer, asked-kept key st.subscription_key d x consumer asked sub))

begun-IsReady :
    (st : Start) (b : Beam) (x : Result Consumer × Driver) (entering : List Start)
    → IsReady x.1 entering
    → IsReady (begun st b x).1.driver entering
unfolding begun
begun-IsReady st b (ok consumer, d) entering h = h
begun-IsReady st b (err e, d) entering h = h

parsed-IsReady :
    (cluster : Cluster) (st : Start) (b : Beam) (type : Result SubscriptionType)
    (position : Result InitialPosition) (entering : List Start)
    → IsReady b.driver entering
    → IsReady (parsed cluster st b type position).1.driver entering
unfolding parsed
parsed-IsReady cluster st b (err e) position entering h = h
parsed-IsReady cluster st b (ok type) (err e) entering h = h
parsed-IsReady cluster st b (ok type) (ok position) entering h =
    begun-IsReady st b (subscribe cluster st b.driver) entering (
      asked-IsReady st.subscription_key b.driver _ entering (subscribe-IsAsked cluster st b.driver)
        h)

pub begin-IsReady :
    (cluster : Cluster) (st : Start) (b : Beam) (entering : List Start)
    → IsReady b.driver entering
    → IsReady (begin_loop cluster st b).1.driver entering
unfolding begin_loop
begin-IsReady cluster st b entering =
    parsed-IsReady cluster st b (get_subscription_type st.webhook.subscription_type)
      (get_initial_position st.webhook.initial_position) entering

connected-IsReady :
    (l : Loop) (b : Beam) (x : Result Consumer × Driver) (entering : List Start)
    → IsReady x.1 entering
    → IsReady (connected l b x).1.driver entering
connected-IsReady l b (ok consumer, d) entering h = h
connected-IsReady l b (err e, d) entering h = h

pub reconnect-IsReady :
    (cluster : Cluster) (l : Loop) (b : Beam) (entering : List Start)
    → IsReady b.driver entering
    → IsReady (reconnect_loop cluster l b).1.driver entering
unfolding reconnect_loop
reconnect-IsReady cluster l b entering h =
    connected-IsReady l b (subscribe cluster l.start b.driver) entering (
      asked-IsReady l.start.subscription_key b.driver _ entering
        (subscribe-IsAsked cluster l.start b.driver) h)

-- A cancellation of another key leaves the consumer.
other_kept :
    (key k : String) (b b' : Beam) (consumer : Consumer)
    → IsStep [] key b b'
    → k ≢ key
    → IsSubscribed b.driver k consumer
    → IsSubscribed b'.driver k consumer
unfolding lookup
other_kept key k b b' consumer one away sub = elim (Bool-cases (key == k)) [
  | inl same ↦ absurd (away (sym ((eq_iff key k).0 same)))
  | inr differs ↦ transported b.driver b'.driver k consumer (rw differs at (one.consumers k)) sub
]

pub cancelled-IsReady :
    (key : String) (b b' : Beam) (entering : List Start)
    → IsStep [] key b b'
    → IsAway key entering
    → IsReady b.driver entering
    → IsReady b'.driver entering
cancelled-IsReady key b b' [] one away h = tt
cancelled-IsReady key b b' (st ∷ entering) one (first, away) ((consumer, sub), h) = (
  (consumer, other_kept key st.subscription_key b b' consumer one first sub),
  cancelled-IsReady key b b' entering one away h,
)

-- What holds between any two steps.
pub record IsCalm (s : State) : Type 0 where
  pub running : IsRunning s.system
  pub ready : IsReady s.system.beam.driver s.entering
