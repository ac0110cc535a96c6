-- ===== src/Broker/System.antt =====
-- src/broker/webhook.go as a system: what the runs of the timer do, and the loops that they have
-- started, in any order. A run is taken apart: each start of a loop and each `cancelConsumer` is a step
-- of its own, and a loop subscribes in one step and enters its channel in a later one. A cancellation
-- is one step. That none comes between the subscription and the entry of a loop with its key is an
-- assumption: the code does not exclude it.
pub mod Entering
pub mod Ownership
pub mod Asking
pub mod Cancelling
pub mod Connecting
pub mod Calm
pub mod Safety
pub mod Forgotten
pub mod Orphans
use pulsar_beam.Prelude.{
  ℕ, zero, suc, String, Bool, true, false, not, ◌&&◌, ◌||◌, Option, none, some, List, [], ◌∷◌, ◌++◌,
  map, Result, ok, err, ltb, leb, nat_eq, ◌≡◌, ◌≢◌, All, if◌then◌else◌,
}
use pulsar_beam.Prelude.Maps.{lookup}
use pulsar_beam.Model.Topic.{
  TopicConfig, SubscriptionType, InitialPosition, get_subscription_type, get_initial_position,
}
use pulsar_beam.Broker.Webhook.{Registry, Start, read_webhook}
use pulsar_beam.Broker.Consume.{enter, close_channel, retry_max}
use pulsar_beam.Broker.Cancel.{Beam, cancel_consumer, state_of, run_beam}
use pulsar_beam.Driver.{Consumer, Cluster, Driver}
use pulsar_beam.Driver.Consumers.{get_pulsar_consumer}

-- A loop that runs: what it was started for, its channel, whether that holds a signal, and the
-- variable `retry`.
pub record Loop : Type 0 where
  pub start : Start
  pub channel : ℕ
  pub signalled : Bool
  pub retry : ℕ

pub record System : Type 0 where
  pub beam : Beam
  -- the loops that were started with `go` and have not begun
  pub pending : List Start
  pub loops : List Loop

abbrev pub system : Beam → List Start → List Loop → System
system beam pending loops = record { beam = beam; pending = pending; loops = loops }

-- The system with the loops that have subscribed and have not entered their channel.
pub record State : Type 0 where
  pub system : System
  pub entering : List Start

abbrev pub state : System → List Start → State
state s entering = record { system = s; entering = entering }

-- No loop is about to enter a channel under the key.
abbrev pub IsAway : String → List Start → Type 0
IsAway key entering = All (λ st. st.subscription_key ≢ key) entering

abbrev pub same_channel : Option ℕ → ℕ → Bool
same_channel none c = false
same_channel (some d) c = nat_eq d c

-- A channel whose entry was deleted was sent a signal.
abbrev pub notify : Registry → Registry → Loop → Loop
unfolding lookup
notify before after l = record l {
  signalled =
      l.signalled
      || (same_channel (lookup l.start.subscription_key before.webhooks) l.channel
          && not (same_channel (lookup l.start.subscription_key after.webhooks) l.channel));
}

abbrev pub close_loop : Loop → Beam → Beam
close_loop l b = record b { registry = close_channel l.channel b.registry }

abbrev pub to_list : Option Loop → List Loop
to_list none = []
to_list (some l) = l ∷ []

abbrev pub new_loop : Start → ℕ → Loop
new_loop st channel = record { start = st; channel = channel; signalled = false; retry = 0 }

-- The end behind four errors in a row: `cancelConsumer`, and the channel is closed. `none` is a panic.
abbrev pub closed_behind : Loop → Option Beam → Option Beam
closed_behind l none = none
closed_behind l (some b) = some (close_loop l b)

unfoldable pub give_up : Loop → Beam → Option Beam
unfolding cancel_consumer
give_up l b = closed_behind l (state_of (cancel_consumer l.start.subscription_key b))

abbrev pub begun : Start → Beam → Result Consumer × Driver → Option Loop × Beam
unfolding enter
begun st b (err e, d) = (none, record b { driver = d })
begun st b (ok consumer, d) = (
  some (new_loop st b.registry.next),
  record { registry = enter st.subscription_key b.registry; driver = d },
)

abbrev pub connected : Loop → Beam → Result Consumer × Driver → Option Loop × Beam
connected l b (ok consumer, d) = (some (record l { retry = suc l.retry }), record b { driver = d })
connected l b (err e, d) = (none, close_loop l (record b { driver = d }))

module _ (cluster : Cluster) where
  unfoldable pub subscribe : Start → Driver → Result Consumer × Driver
  unfolding get_pulsar_consumer
  subscribe st d =
      get_pulsar_consumer cluster st.url st.token st.topic st.webhook.subscription
        st.webhook.initial_position st.webhook.subscription_type st.subscription_key d

  abbrev pub parsed :
      Start → Beam → Result SubscriptionType → Result InitialPosition → Option Loop × Beam
  parsed st b (err e) position = (none, b)
  parsed st b (ok type) (err e) = (none, b)
  parsed st b (ok type) (ok position) = begun st b (subscribe st b.driver)

  -- `ConsumeLoop` up to its loop.
  unfoldable pub begin_loop : Start → Beam → Option Loop × Beam
  unfolding subscribe begun get_subscription_type get_initial_position
  begin_loop st b =
      parsed st b (get_subscription_type st.webhook.subscription_type)
        (get_initial_position st.webhook.initial_position)

  -- The tick behind an error of `Receive`: the loop asks for its consumer again, and ends if it gets
  -- none.
  unfoldable pub reconnect_loop : Loop → Beam → Option Loop × Beam
  unfolding subscribe
  reconnect_loop l b = connected l b (subscribe l.start b.driver)

  -- A run starts a loop for a webhook whose key it does not find, and cancels what no document wants;
  -- here any webhook may be started and any key cancelled, at any time and in any order, but no key is
  -- cancelled while a loop with that key has subscribed and has not entered its channel.
  pub data Step (s t : State) : Type 0 where
    start :
        (st : Start)
        → read_webhook st.subscription_key s.system.beam.registry ≡ none
        → t ≡ state (system s.system.beam (s.system.pending ++ (st ∷ [])) s.system.loops) s.entering
        → Step s t
    cancel :
        (key : String) (b : Beam)
        → state_of (cancel_consumer key s.system.beam) ≡ some b
        → IsAway key s.entering
        → t
          ≡ state
              (system b s.system.pending
                (map (notify s.system.beam.registry b.registry) s.system.loops))
              s.entering
        → Step s t
    connect :
        (ps qs : List Start) (st : Start) (consumer : Consumer) (d : Driver)
        (type : SubscriptionType) (position : InitialPosition)
        → s.system.pending ≡ ps ++ (st ∷ qs)
        → get_subscription_type st.webhook.subscription_type ≡ ok type
        → get_initial_position st.webhook.initial_position ≡ ok position
        → subscribe st s.system.beam.driver ≡ (ok consumer, d)
        → t
          ≡ state
              (system (record s.system.beam { driver = d }) (ps ++ qs) s.system.loops)
              (st ∷ s.entering)
        → Step s t
    fail :
        (ps qs : List Start) (st : Start)
        → s.system.pending ≡ ps ++ (st ∷ qs)
        → (begin_loop st s.system.beam).0 ≡ none
        → t ≡ state (system (begin_loop st s.system.beam).1 (ps ++ qs) s.system.loops) s.entering
        → Step s t
    enter_channel :
        (es fs : List Start) (st : Start)
        → s.entering ≡ es ++ (st ∷ fs)
        → t
          ≡ state
              (system
                (record s.system.beam {
                  registry = enter st.subscription_key s.system.beam.registry;
                })
                s.system.pending
                (new_loop st s.system.beam.registry.next ∷ s.system.loops))
              (es ++ fs)
        → Step s t
    receive :
        (ls ms : List Loop) (l : Loop)
        → s.system.loops ≡ ls ++ (l ∷ ms)
        → leb l.retry retry_max ≡ true
        → t
          ≡ state
              (system s.system.beam s.system.pending (ls ++ (record l { retry = 0 } ∷ ms)))
              s.entering
        → Step s t
    reconnect :
        (ls ms : List Loop) (l : Loop)
        → s.system.loops ≡ ls ++ (l ∷ ms)
        → leb l.retry retry_max ≡ true
        → t
          ≡ state
              (system
                (reconnect_loop l s.system.beam).1
                s.system.pending
                (ls ++ (to_list (reconnect_loop l s.system.beam).0 ++ ms)))
              s.entering
        → Step s t
    stop :
        (ls ms : List Loop) (l : Loop)
        → s.system.loops ≡ ls ++ (l ∷ ms)
        → leb l.retry retry_max ≡ true
        → l.signalled ≡ true
        → t ≡ state (system (close_loop l s.system.beam) s.system.pending (ls ++ ms)) s.entering
        → Step s t
    exceed :
        (ls ms : List Loop) (l : Loop) (b : Beam)
        → s.system.loops ≡ ls ++ (l ∷ ms)
        → ltb retry_max l.retry ≡ true
        → give_up l s.system.beam ≡ some b
        → IsAway l.start.subscription_key s.entering
        → t
          ≡ state
              (system b s.system.pending
                (map (notify s.system.beam.registry b.registry) (ls ++ ms)))
              s.entering
        → Step s t

  pub data Reach (s : State) : State → Type 0 where
    here : Reach s s
    next : {t u : State} → Reach s t → Step t u → Reach s u
