-- ===== src/Tests/SystemTests.antt =====
-- The webhook broker at a concrete input: a document with two webhooks of one URL is loaded, both
-- loops begin, and then the document is gone.
use pulsar_beam.Prelude.{
  String, true, false, Option, none, some, [], ◌∷◌, ◌++◌, map, Result, ◌≡◌, refl,
}
use pulsar_beam.Prelude.Maps.{lookup}
use pulsar_beam.Model.Topic.{get_subscription_type, get_initial_position}
use pulsar_beam.Driver.{Consumer, Driver}
use pulsar_beam.Broker.Webhook.{Start, read_webhook}
use pulsar_beam.Broker.Cancel.{Beam, state_of, cancel_consumer, run_beam}
use pulsar_beam.Broker.System.{
  Loop, system, State, state, subscribe, begin_loop, reconnect_loop, Step, Reach, start, cancel,
  connect, enter_channel, to_list, notify, new_loop, here, next,
}
use pulsar_beam.Broker.System.Entering.{IsCalm}
use pulsar_beam.Broker.System.Calm.{Reach-IsCalm}
use pulsar_beam.Broker.System.Forgotten.{IsLost}
use pulsar_beam.Broker.System.Safety.{IsStart, start-IsCalm}
use pulsar_beam.Broker.System.Orphans.{begin_loop-Orphans}
use pulsar_beam.Tests.Samples.{hook, keyed}
use pulsar_beam.Tests.DriverTests.{serving, idle}

abbrev nothing : Beam
nothing = record { registry = record { webhooks = []; closed = []; next = 0 }; driver = idle }

abbrev quiet : State
quiet = state (system nothing [] []) []

quiet-IsStart : IsStart quiet
quiet-IsStart = record { nothing = refl; none_closed = refl; no_loops = refl; none_entering = refl }

abbrev started : String → Start
started name = record {
  url = "pulsar://broker:6650";
  token = "";
  topic = "persistent://acme/ns/orders";
  subscription_key = "persistent://acme/ns/orderspulsar://broker:6650hook.example";
  webhook = hook name;
}

-- One run starts both loops, which have one key.
run_starts_test :
    run_beam (keyed ∷ []) nothing ≡ (started "audit" ∷ started "billing" ∷ [], some nothing)
unfolding run_beam
run_starts_test = refl

loaded :
    Reach serving quiet (state (system nothing (started "audit" ∷ started "billing" ∷ []) []) [])
unfolding read_webhook lookup
loaded = next (next here (start (started "audit") refl refl)) (start (started "billing") refl refl)

abbrev asked : Result Consumer × Driver
unfolding subscribe
asked = subscribe serving (started "billing") idle

-- The loop for "billing" has subscribed.
abbrev halfway : State
unfolding asked
halfway =
    state (system (record nothing { driver = asked.1 }) (started "audit" ∷ []) [])
      (started "billing" ∷ [])

subscribed_first : Reach serving quiet halfway
unfolding halfway get_subscription_type get_initial_position
subscribed_first =
    next loaded
      (connect (started "audit" ∷ []) [] (started "billing") _ _ _ _ refl refl refl refl refl)

abbrev first : Option Loop × Beam
unfolding begin_loop
first = begin_loop serving (started "billing") nothing

abbrev one : State
unfolding first
one = state (system first.1 (started "audit" ∷ []) (to_list first.0)) []

begun_first : Reach serving quiet one
unfolding one halfway
begun_first = next subscribed_first (enter_channel [] [] (started "billing") refl refl)

one-IsCalm : IsCalm one
one-IsCalm = Reach-IsCalm serving quiet one (start-IsCalm quiet quiet-IsStart) begun_first

abbrev second : Option Loop × Beam
unfolding one begin_loop
second = begin_loop serving (started "audit") one.system.beam

abbrev both : State
unfolding second one
both = state (system second.1 [] (to_list second.0 ++ one.system.loops)) []

-- The document is gone: the second loop gets the signal, and the first connects again.
abbrev after : Beam
unfolding both cancel_consumer
after = elim (state_of (cancel_consumer (started "audit").subscription_key both.system.beam)) [
  | none ↦ both.system.beam
  | some b ↦ b
]

abbrev dropped : State
unfolding after both
dropped =
    state
      (system after [] (map (notify both.system.beam.registry after.registry) both.system.loops)) []

gone : Step serving both dropped
unfolding dropped
gone = cancel (started "audit").subscription_key after refl tt refl

-- A run over no documents comes to the same.
run_cancels_test : run_beam [] both.system.beam ≡ ([], some after)
unfolding after run_beam
run_cancels_test = refl

-- Then the first loop has a consumer again, for a webhook that no document has.
back_test :
    (to_list (reconnect_loop serving (new_loop (started "billing") 0) dropped.system.beam).0
      ≡ (record (new_loop (started "billing") 0) { retry = 1 } ∷ []))
    × (dropped.system.beam.registry.webhooks ≡ [])
    × (map (λ l. l.signalled) dropped.system.loops ≡ true ∷ false ∷ [])
unfolding dropped reconnect_loop
back_test = (refl, refl, refl)

begin_loop-Orphans_example : IsLost 0 dropped.system
unfolding both
begin_loop-Orphans_example =
    begin_loop-Orphans serving one dropped [] [] (started "audit") [] []
      (new_loop (started "billing") 0) (new_loop (started "audit") 1) second.1 one-IsCalm refl refl
      refl refl (next here gone)
