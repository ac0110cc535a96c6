-- ===== src/Tests/ModelTests.antt =====
-- src/model at concrete inputs.
use pulsar_beam.Prelude.{◌≡◌, ◌≢◌, ◌↔◌, refl, [], ◌∷◌, All, ok, err}
use pulsar_beam.Strings.{◌<>◌, trim_space}
use pulsar_beam.Model.Regex.{Matches}
use pulsar_beam.Model.Topic.{
  pulsar_url_regex, get_subscription_type, key_shared, get_key_from_names, validate_webhook_config,
}
use pulsar_beam.Model.Topic.Validation.{
  IsValidWebhook, IsDistinct, exclusive_names, validate_webhook_config-eq-ok_iff,
}
use pulsar_beam.Model.Topic.Keys.{get_key_from_names-eq-ok_iff, get_key_from_names-injective}
use pulsar_beam.Tests.Openers.{keys, validation}
use pulsar_beam.Tests.Samples.{plain, hook, orders, orders_key}

key_shared_test : get_subscription_type "KeyShared" ≡ ok key_shared
unfolding get_subscription_type
key_shared_test = refl

key_tests :
    (get_key_from_names plain " persistent://acme/ns/orders " "pulsar://broker:6650"
      ≡ ok orders_key)
    × (get_key_from_names plain "t" "http://broker"
        ≡ err "incorrect pulsar url format http://broker")
    × (get_key_from_names plain " " "pulsar://broker" ≡ err "missing PulsarURL or TopicFullName")
unfolding keys
key_tests = (refl, refl, refl)

validate_test :
    validate_webhook_config plain (hook "a" ∷ hook "a" ∷ [])
    ≡ err "exclusive subscription a cannot be shared between multiple webhooks"
unfolding validation
validate_test = refl

validate_webhook_config-eq-ok_iff_example :
    (validate_webhook_config plain orders.webhooks ≡ ok tt)
    ↔ (All (IsValidWebhook plain) orders.webhooks × IsDistinct (exclusive_names orders.webhooks))
validate_webhook_config-eq-ok_iff_example = validate_webhook_config-eq-ok_iff plain orders.webhooks

get_key_from_names-eq-ok_iff_example :
    (get_key_from_names plain " t" "pulsar://h" ≡ ok "tpulsar://h") ↔ (
      (trim_space "pulsar://h" ≢ "")
      × (trim_space " t" ≢ "")
      × Matches pulsar_url_regex (trim_space "pulsar://h")
      × (trim_space " t" <> trim_space "pulsar://h" ≡ "tpulsar://h"))
get_key_from_names-eq-ok_iff_example =
    get_key_from_names-eq-ok_iff plain " t" "pulsar://h" "tpulsar://h"

get_key_from_names-injective_test : trim_space " t" ≡ trim_space "t "
unfolding keys
get_key_from_names-injective_test =
    get_key_from_names-injective plain " t" "t " "pulsar://h" "tpulsar://h" (λ s t e. e) refl refl
