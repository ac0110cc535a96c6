-- ===== src/Broker/Cancel.antt =====
-- src/broker/webhook.go and src/pulsardriver/pulsar-consumer.go together: what a run does to the
-- channels of the webhooks and to the consumers behind them.
pub mod Steps
pub mod Closing
use pulsar_beam.Prelude.{
  String, Bool, true, false, Option, none, some, List, [], ◌∷◌, ℕ, if◌then◌else◌,
}
use pulsar_beam.Prelude.Maps.{Map, lookup}
use pulsar_beam.Strings.{◌<>◌}
use pulsar_beam.Model.Topic.{TopicConfig}
use pulsar_beam.Broker.Webhook.{
  Registry, Start, Deletion, deleted, panicked, delete_webhook, is_in, run_configs,
}
use pulsar_beam.Driver.{Driver}
use pulsar_beam.Driver.Consumers.{cancel_pulsar_consumer}

pub record Beam : Type 0 where
  pub registry : Registry
  pub driver : Driver

abbrev pub with_driver : Registry → Option Driver → Option (Option String × Beam)
with_driver reg none = none
with_driver reg (some d) = some (none, record { registry = reg; driver = d })

abbrev pub cancelled : String → Driver → Deletion → Option (Option String × Beam)
unfolding cancel_pulsar_consumer
cancelled key d panicked = none
cancelled key d (deleted false reg) =
    some (some ("topic does not exist " <> key), record { registry = reg; driver = d })
cancelled key d (deleted true reg) = with_driver reg (cancel_pulsar_consumer key d)

-- `cancelConsumer`: its error and the state; `none` is a panic, here and below.
unfoldable pub cancel_consumer : String → Beam → Option (Option String × Beam)
unfolding cancelled delete_webhook
cancel_consumer key b = cancelled key b.driver (delete_webhook key b.registry)

abbrev pub state_of : Option (Option String × Beam) → Option Beam
state_of none = none
state_of (some (e, b)) = some b

-- The loop of `run` that cancels what is not in the set.
unfoldable pub drop_one : Map Bool → String → Beam → Option Beam
unfolding cancel_consumer lookup
drop_one keys key b = if is_in (lookup key keys) then some b else state_of (cancel_consumer key b)

unfoldable pub drop_all : Map Bool → List (String × ℕ) → Beam → Option Beam
unfolding drop_one
drop_all keys [] b = some b
drop_all keys ((key, c) ∷ rest) b = elim (drop_one keys key b) [
  | none ↦ none
  | some b' ↦ drop_all keys rest b'
]

-- `run` over both.
unfoldable pub run_beam : List TopicConfig → Beam → List Start × Option Beam
unfolding run_configs drop_all
run_beam cfgs b =
    let (keys, starts) = run_configs b.registry cfgs ([], []) in
    (starts, drop_all keys b.registry.webhooks b)
