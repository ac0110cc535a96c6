-- ===== src/Tests/DbTests.antt =====
-- src/db at concrete inputs.
use pulsar_beam.Prelude.{String, ◌≡◌, refl, List, [], ◌∷◌, All, length, none, some, ok, err}
use pulsar_beam.Prelude.Maps.{lookup}
use pulsar_beam.Model.Topic.{TopicConfig}
use pulsar_beam.Db.{doc_already_existed, stamped, zero_doc}
use pulsar_beam.Db.Contract.{IsKeyed, IsLawful}
use pulsar_beam.Db.InMemory
use pulsar_beam.Db.InMemory.Effects.{in_memory-IsLawful}
use pulsar_beam.Db.InMemory.Filing.{last_visited, load_repeats}
use pulsar_beam.Db.PulsarDb
use pulsar_beam.Db.PulsarDb.{new_run, PulsarHandler, apply_doc, db_listener}
use pulsar_beam.Db.PulsarDb.Effects.{IsFiled, pulsar_db-IsLawful}
use pulsar_beam.Db.PulsarDb.Recovery.{
  replay, Op, op_create, op_update, op_delete, run_ops, replay-run_ops,
}
use pulsar_beam.Db.PulsarDb.Listener.{run_end, db_listener_lem}
use pulsar_beam.Tests.Openers.{memory}
use pulsar_beam.Tests.Samples.{plain, orders, orders_key, keyed, broker}

abbrev stored : List (String × TopicConfig)
stored = (orders_key, stamped orders_key 5 orders) ∷ []

memory_tests :
    (InMemory.create plain 5 orders [] ≡ (ok orders_key, stored))
    × (InMemory.create plain 6 orders stored ≡ (err doc_already_existed, stored))
    × (InMemory.update plain 7 keyed stored ≡ (ok orders_key, (orders_key, keyed) ∷ []))
    × (InMemory.delete_by_key orders_key stored ≡ (ok orders_key, []))
unfolding memory
memory_tests = (refl, refl, refl, refl)

in_memory-IsLawful_example : IsLawful plain (InMemory.in_memory plain) IsKeyed
in_memory-IsLawful_example = in_memory-IsLawful plain

pulsar_db-IsLawful_example : IsLawful plain (PulsarDb.pulsar_db broker plain) IsFiled
pulsar_db-IsLawful_example = pulsar_db-IsLawful broker plain

-- An update without the key, as a client of the REST API sends it: the stored document stays as it was,
-- and the new one stands under the empty key.
update_misfiles_test :
    InMemory.update plain 7 orders stored
    ≡ (ok orders_key, (orders_key, stamped orders_key 5 orders) ∷ ("", orders) ∷ [])
unfolding memory
update_misfiles_test = refl

abbrev two : List (String × TopicConfig)
two = ("a", orders) ∷ ("b", keyed) ∷ []

load_repeats_example :
    ((InMemory.load two).1 ≡ none)
    × (length (InMemory.load two).0 ≡ length two)
    × All (λ d. d ≡ last_visited zero_doc two) (InMemory.load two).0
load_repeats_example = load_repeats two

load_test : InMemory.load two ≡ (keyed ∷ keyed ∷ [], none)
unfolding memory
load_test = refl

db_listener_lem_test :
    db_listener {P = TopicConfig} (λ d. some d) (orders ∷ keyed ∷ []) (new_run [])
    ≡ run_end [] (orders ∷ keyed ∷ [])
db_listener_lem_test = db_listener_lem (λ d. some d) [] (orders ∷ keyed ∷ [])

abbrev empty_db : PulsarHandler TopicConfig
empty_db = record { topics = []; confirmed = [] }

abbrev ops : List Op
ops = op_create 5 orders ∷ op_update 7 keyed ∷ op_delete "x" ∷ []

abbrev after : PulsarHandler TopicConfig
after = run_ops plain broker ops empty_db

replay-run_ops_example :
    lookup orders_key (replay broker.unmarshal after.confirmed []) ≡ lookup orders_key after.topics
unfolding replay
replay-run_ops_example =
    replay-run_ops plain broker (λ d p e. cc) ops empty_db ((λ e. cc), ((λ e. cc), (tt, tt)))
      (λ j. refl) orders_key
