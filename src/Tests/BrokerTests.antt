-- ===== src/Tests/BrokerTests.antt =====
-- src/broker at concrete inputs.
use pulsar_beam.Broker.Webhook.Runs.{wanted, run-lookup}
use pulsar_beam.Prelude.{
  ℕ, String, Option, true, false, some, none, ok, [], ◌∷◌, ◌++◌, map, ◌≡◌, refl, length,
  if◌then◌else◌,
}
use pulsar_beam.Prelude.Int.{pos}
use pulsar_beam.Prelude.Maps.{insert, delete, lookup}
use pulsar_beam.Strings.{has_prefix}
use pulsar_beam.Model.Topic.{exclusive, get_subscription_type, get_initial_position, TopicConfig}
use pulsar_beam.Broker.Poll.{
  Pulsar, message, timeout, ack, unsubscribe, close_consumer, close_client,
  get_pulsar_client_consumer, poll_options, poll_deferred, poll_batch_messages,
}
use pulsar_beam.Broker.Poll.Batches.{
  batch_of, arrived, poll_batch_messages_lem, poll_batch_messages-unsubscribe,
}
use pulsar_beam.Broker.Webhook.{
  Registry, read_webhook, run, run_configs, run_webhooks, note_webhook, cancel_all, cancel_one,
  delete_webhook,
}
use pulsar_beam.Broker.Consume.{
  Web, received, reconnected, not_reconnected, waiting, max_reached, consume_from, consume_loop,
  open_consumer, enter, leave, split_header,
}
use pulsar_beam.Broker.Consume.Headers.{expected_pushes, consume_from-received}
use pulsar_beam.Broker.Consume.Exits.{IsStale, consume_loop-lost, leave_max_reached}
use pulsar_beam.Tests.Samples.{hook, msg, pulsar, orders}

abbrev arrivals_of_two : pulsar_beam.Prelude.List pulsar_beam.Broker.Poll.Arrival
arrivals_of_two = message (msg "a") ∷ message (msg "b") ∷ timeout ∷ message (msg "c") ∷ []

poll_batch_messages_lem_test :
    poll_batch_messages pulsar "u" "t" "topic" "billing" exclusive (pos 5) arrivals_of_two ≡ (
      ok (batch_of (pos 5) (msg "a" ∷ msg "b" ∷ [])),
      map ack (msg "a" ∷ msg "b" ∷ []) ++ poll_deferred "billing",
    )
unfolding get_pulsar_client_consumer arrived
poll_batch_messages_lem_test =
    poll_batch_messages_lem pulsar "u" "t" "topic" "billing" exclusive (pos 5) arrivals_of_two refl

poll_batch_messages-unsubscribe_test :
    (poll_batch_messages pulsar "u" "t" "topic" "NonResumable1" exclusive (pos 1) arrivals_of_two).1
    ≡ ack (msg "a") ∷ close_client ∷ close_consumer ∷ unsubscribe ∷ []
unfolding get_pulsar_client_consumer arrived has_prefix
poll_batch_messages-unsubscribe_test =
    poll_batch_messages-unsubscribe pulsar "u" "t" "topic" "NonResumable1" exclusive (pos 1)
      arrivals_of_two refl refl

abbrev pub web : Web
web = record { valid_json = λ s. false; show_time = λ n. "now"; post = λ url payload h. some 200 }

split_header_test : (split_header "a: b:c" ≡ some ("a", " b:c")) × (split_header "none" ≡ none)
unfolding split_header
split_header_test = (refl, refl)

consume_from-received_example :
    consume_from web "hook.example" 0 ("x:y" ∷ []) (map received (msg "a" ∷ msg "b" ∷ []))
    ≡ (expected_pushes web "hook.example" ("x:y" ∷ []) [] (msg "a" ∷ msg "b" ∷ []), waiting)
consume_from-received_example =
    consume_from-received web "hook.example" ("x:y" ∷ []) (msg "a" ∷ msg "b" ∷ [])

abbrev registry : Registry
registry = record { webhooks = []; closed = []; next = 4 }

abbrev left_behind : Registry
left_behind = record { webhooks = ("k", 4) ∷ []; closed = 4 ∷ []; next = 5 }

gives_up :
    consume_from web "hook.example" 0 []
      (reconnected ∷ reconnected ∷ reconnected ∷ reconnected ∷ received (msg "a") ∷ [])
    ≡ ([], max_reached)
unfolding consume_from
gives_up = refl

consume_loop-lost_test :
    (reg' : Registry) × (◌≡◌ {A = Option Registry} (some left_behind) (some reg'))
    × IsStale "k" reg'
unfolding consume_loop open_consumer get_subscription_type get_initial_position enter leave
    consume_from insert
consume_loop-lost_test =
    consume_loop-lost web "k" (hook "billing") none (not_reconnected "no broker" ∷ []) registry []
      "no broker" (some left_behind) refl

leave_max_reached_test :
    (reg' : Registry) × (leave "k" 4 max_reached (enter "k" registry) ≡ some reg')
    × (read_webhook "k" reg' ≡ none)
leave_max_reached_test = leave_max_reached "k" registry refl

abbrev active : TopicConfig
active = record orders { key = "k"; webhooks = hook "billing" ∷ [] }

abbrev two_running : Registry
two_running = record { webhooks = ("khook.example", 1) ∷ ("old", 2) ∷ []; closed = []; next = 3 }

run_test :
    run (active ∷ []) two_running
    ≡ ([], some (record two_running { webhooks = ("khook.example", 1) ∷ [] }))
unfolding run run_configs run_webhooks note_webhook read_webhook cancel_all cancel_one
    delete_webhook lookup insert delete
run_test = refl

run-lookup_test :
    (reg' : Registry) × ((run (active ∷ []) two_running).1 ≡ some reg')
    × ((key : String)
        → lookup key reg'.webhooks
          ≡ (if wanted (active ∷ []) key then lookup key two_running.webhooks else none))
run-lookup_test = run-lookup (active ∷ []) two_running (record { is_open = λ key c h. refl })
