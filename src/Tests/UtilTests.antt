-- ===== src/Tests/UtilTests.antt =====
-- src/util at concrete inputs.
use pulsar_beam.Prelude.{
  String, true, false, ◌≡◌, ◌≢◌, ◌⊎◌, ◌||◌, refl, [], ◌∷◌, Any, ok, err, eq_iff, ◌==◌,
  if◌then◌else◌, arith,
}
use pulsar_beam.Prelude.Int.{pos, negsuc}
use pulsar_beam.Prelude.Maps.{lookup, insert}
use pulsar_beam.Strings.{◌<>◌, trim_space, split, replace_first}
use pulsar_beam.Strings.Decimal.{decimal, atoi}
use pulsar_beam.Util.{
  Values, receiver, header_get, header_set, string_to_bool, query_param_int, str_contains,
  allowed_pulsar_urls, receiver_token, receiver_header, is_restricted, is_valid_mode,
  is_broker_required, is_http_router_required, is_broker, build_topic_fn, tokenize_topic_full_name,
}
use pulsar_beam.Util.Topics.{tokenize-build}
use pulsar_beam.Util.Clusters.{receiver_header-IsAllowed, receiver_header_default}
use pulsar_beam.Util.Modes.{is_valid_mode-eq, padded_broker}
use pulsar_beam.Tests.Samples.{config}

util : Unit {0}
unfolding trim_space split replace_first header_get header_set lookup insert str_contains
    allowed_pulsar_urls receiver_token receiver_header is_restricted string_to_bool query_param_int
    atoi decimal build_topic_fn
util = tt

abbrev to_other : Values
to_other = ("Pulsarurl", "pulsar://other:6650" ∷ []) ∷ ("Authorization", "Bearer abc" ∷ []) ∷ []

abbrev other_cluster : String
other_cluster = "pulsar://other:6650"

conversions :
    (string_to_bool " Enabled" ≡ true)
    × (string_to_bool "on" ≡ false)
    × (query_param_int (("batchSize", "-3" ∷ []) ∷ []) "batchSize" (pos 10) ≡ negsuc 2)
    × (query_param_int (("batchSize", "x" ∷ []) ∷ []) "batchSize" (pos 10) ≡ pos 10)
    × (decimal 1600000000 ≡ "1600000000")
unfolding util
conversions = (refl, refl, refl, refl, refl)

receiver_test :
    receiver_header config (allowed_pulsar_urls config) to_other
    ≡ ok (receiver "abc" "" "pulsar://other:6650")
unfolding util
receiver_test = refl

tokenize-build_example :
    tokenize_topic_full_name "non-persistent://acme/ns/orders"
    ≡ ok (record { is_persistent = false; tenant = "acme"; namespace = "ns"; topic = "orders" })
unfolding build_topic_fn
tokenize-build_example =
    tokenize-build "np" "acme" "ns" "orders" "non-persistent://acme/ns/orders" (ground arith)
      (ground arith) (ground arith) refl

receiver_header-IsAllowed_example :
    ((is_restricted (allowed_pulsar_urls config) ≡ true)
      × Any (λ v. trim_space v ≡ trim_space other_cluster) (allowed_pulsar_urls config))
    ⊎ ((is_restricted (allowed_pulsar_urls config) ≡ false)
        × (other_cluster ≡ header_get to_other "PulsarUrl")
        × (other_cluster ≢ ""))
receiver_header-IsAllowed_example =
    receiver_header-IsAllowed config (allowed_pulsar_urls config) to_other
      (receiver "abc" "" other_cluster) receiver_test

receiver_header_default_test : receiver_header config (allowed_pulsar_urls config) [] ≡ (
    if header_get [] "PulsarUrl" == ""
    then ok (receiver (receiver_token config []) (header_get [] "TopicFn") "pulsar://broker:6650")
    else if str_contains (allowed_pulsar_urls config) (header_get [] "PulsarUrl")
    then ok
        (receiver (receiver_token config []) (header_get [] "TopicFn") (header_get [] "PulsarUrl"))
    else err ("pulsar cluster " <> header_get [] "PulsarUrl" <> " is not allowed"))
receiver_header_default_test =
    receiver_header_default config [] (ground (arith, eq_iff "pulsar://broker:6650" ""))

is_valid_mode-eq_test :
    is_valid_mode "http2" ≡ (is_broker_required "http2" || is_http_router_required "http2")
unfolding trim_space
is_valid_mode-eq_test = is_valid_mode-eq "http2" refl

padded_broker_test :
    (is_valid_mode "broker " ≡ true)
    × (is_broker_required "broker " ≡ false)
    × (is_http_router_required "broker " ≡ false)
    × (is_broker "broker " ≡ false)
unfolding trim_space
padded_broker_test = padded_broker "broker " refl (ground (arith, eq_iff "broker " "broker"))
