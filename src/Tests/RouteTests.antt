-- ===== src/Tests/RouteTests.antt =====
-- src/route at concrete inputs.
use pulsar_beam.Prelude.{
  String, true, false, ◌≡◌, ◌≢◌, ◌↔◌, ◌⊎◌, refl, [], ◌∷◌, Any, some, ok, err, eq_iff, arith,
}
use pulsar_beam.Strings.{split}
use pulsar_beam.Model.Topic.{TopicConfig}
use pulsar_beam.Util.{build_topic_fn}
use pulsar_beam.Db.{doc_not_found, stamped}
use pulsar_beam.Db.InMemory
use pulsar_beam.Db.InMemory.{in_memory, Topics}
use pulsar_beam.Db.InMemory.Effects.{in_memory-IsLawful}
use pulsar_beam.Db.Contract.{IsKeyed, Drops}
use pulsar_beam.Route.Auth.{extract_eval_tenant, verify_subject_based_on_topic}
use pulsar_beam.Route.Auth.Tenants.{IsSubjectOf, extract_eval_tenant-eq-true_iff}
use pulsar_beam.Route.Auth.Subjects.{Grants, verify-build_topic_fn_iff}
use pulsar_beam.Route.Topics.{
  get_topic_key, may_manage, get_topic_handler, update_topic_handler, delete_topic_handler,
}
use pulsar_beam.Route.Topics.Safety.{
  IsRefused, MayDelete, MayFile, Filed, delete_topic_handler-effect, update_topic_handler-effect,
}
use pulsar_beam.Route.Topics.Replies.{answer, get_topic_handler-forbidden_iff, get-update}
use pulsar_beam.Tests.Openers.{validation, memory, access}
use pulsar_beam.Tests.Samples.{
  plain, orders, orders_key, keyed, server, ask, stored, stored-IsKeyed,
}

extract_test :
    (extract_eval_tenant "acme" "acme-admin" ≡ true)
    × (extract_eval_tenant "acme" "acme" ≡ false)
    × (extract_eval_tenant "acme-eu" "acme-eu-1" ≡ true)
unfolding extract_eval_tenant
extract_test = (refl, refl, refl)

extract_eval_tenant-eq-true_iff_test :
    (extract_eval_tenant "acme" "acme-admin" ≡ true)
    ↔ (◌≢◌ {A = String} "acme" "" × IsSubjectOf "acme" "acme-admin")
extract_eval_tenant-eq-true_iff_test = extract_eval_tenant-eq-true_iff "acme" "acme-admin"

verify-build_topic_fn_iff_example :
    (verify_subject_based_on_topic
        ("superuser" ∷ [])
        "persistent://acme/ns/orders"
        "x,acme-1"
        extract_eval_tenant
      ≡ true)
    ↔ Any (Grants ("superuser" ∷ []) "acme") (split "x,acme-1" ",")
unfolding build_topic_fn
verify-build_topic_fn_iff_example =
    verify-build_topic_fn_iff ("superuser" ∷ []) "p" "acme" "ns" "orders"
      "persistent://acme/ns/orders" "x,acme-1" (ground (arith, eq_iff "acme" "")) (ground arith)
      refl

missing_only : (k e : String) (s : Topics) → InMemory.get_by_key k s ≡ err e → e ≡ doc_not_found
unfolding InMemory.get_by_key
missing_only k e s h = ground arith

delete_topic_handler-effect_test :
    ((delete_topic_handler server (in_memory plain) (ask "acme-1") stored).1 ≡ stored)
    ⊎ ((key : String) × MayDelete server (in_memory plain) (ask "acme-1") stored key
        × Drops
            (in_memory plain)
            key
            stored
            (delete_topic_handler server (in_memory plain) (ask "acme-1") stored).1
        × IsKeyed (delete_topic_handler server (in_memory plain) (ask "acme-1") stored).1)
delete_topic_handler-effect_test =
    delete_topic_handler-effect server (in_memory plain) (in_memory-IsLawful plain) (ask "acme-1")
      stored stored-IsKeyed

update_topic_handler-effect_example :
    (((update_topic_handler server (in_memory plain) 9 (ask "acme-1") stored).1 ≡ stored)
      × IsRefused server (in_memory plain) (in_memory-IsLawful plain) 9 (ask "acme-1") stored)
    ⊎ ((doc : TopicConfig) × MayFile server (in_memory plain) (ask "acme-1") doc
        × Filed server
            (in_memory plain)
            (in_memory-IsLawful plain)
            9
            doc
            stored
            (update_topic_handler server (in_memory plain) 9 (ask "acme-1") stored).1
        × IsKeyed (update_topic_handler server (in_memory plain) 9 (ask "acme-1") stored).1)
update_topic_handler-effect_example =
    update_topic_handler-effect server (in_memory plain) (in_memory-IsLawful plain) missing_only 9
      (ask "acme-1") stored stored-IsKeyed

get_topic_handler-forbidden_iff_test :
    ((get_topic_handler server (in_memory plain) (ask "evil") stored).status ≡ some 403) ↔ (
      (key : String) × (doc : TopicConfig) × (get_topic_key server (ask "evil") ≡ ok key)
      × (InMemory.get_by_key key stored ≡ ok doc)
      × (may_manage server (ask "evil") doc ≡ false))
get_topic_handler-forbidden_iff_test =
    get_topic_handler-forbidden_iff server (in_memory plain) (ask "evil") stored

get-update_example :
    (update_topic_handler server (in_memory plain) 9 (ask "acme-1") stored
      ≡ (answer 201 "persistent://acme/ns/orders", (orders_key, keyed) ∷ []))
    × (get_topic_handler server (in_memory plain) (ask "superuser") ((orders_key, keyed) ∷ [])
        ≡ answer 200 "persistent://acme/ns/orders")
unfolding validation memory access
get-update_example =
    get-update server (in_memory plain) (in_memory-IsLawful plain) 9 (ask "acme-1")
      (ask "superuser") stored ((orders_key, keyed) ∷ []) keyed (stamped orders_key 5 orders)
      orders_key orders_key "persistent://acme/ns/orders" stored-IsKeyed refl refl refl refl
      (omega arith) refl refl refl refl refl
