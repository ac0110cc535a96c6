-- ===== src/Tests/RequestTests.antt =====
-- The handlers of messages and tokens in src/route at concrete inputs.
use Prim.Native.String.{len}
use pulsar_beam.Prelude.{
  ℕ, ◌<◌, String, Option, true, false, some, none, ok, err, Result, [], ◌∷◌, ◌++◌, map, ◌≡◌, ◌↔◌,
  refl, arith, Any, eq_iff, not, ◌==◌, ◌||◌, length, nat_eq, if◌then◌else◌,
}
use pulsar_beam.Prelude.Int.{pos_part}
use pulsar_beam.Prelude.Maps.{lookup, insert}
use pulsar_beam.Strings.{◌<>◌, trim_space, split, replace_first, to_lower}
use pulsar_beam.Strings.Decimal.{atoi}
use pulsar_beam.Model.Topic.{exclusive, latest, get_subscription_type, get_initial_position}
use pulsar_beam.Model.Message.{PulsarMessages}
use pulsar_beam.Util.{
  receiver, receiver_header, receiver_token, header_get, is_restricted, str_contains,
  allowed_pulsar_urls, query_param_string, query_param_int, build_topic_fn, assign_string,
}
use pulsar_beam.Broker.Poll.{
  Arrival, message, timeout, ack, get_pulsar_client_consumer, poll_deferred,
}
use pulsar_beam.Broker.Poll.Batches.{arrived, batch_of}
use pulsar_beam.Route.Consumers.{
  ConsumerConfig, get_topic_fn_from_route, consumer_params, subscription_name,
  consumer_config_from_http_parts, poll_handler,
}
use pulsar_beam.Route.Consumers.Parameters.{
  IsNamed, IsRouted, consumer_config_from_http_parts-eq-ok,
}
use pulsar_beam.Route.Consumers.Replies.{batch_size, encoded_status, poll_handler_lem}
use pulsar_beam.Route.Receive.{
  Body, chunk, finished, Sent, read_all, open_body, request_text, has_option, includes,
  receive_handler,
}
use pulsar_beam.Route.Receive.Delivery.{
  content, failure, message_of, read_all_lem, receive_handler_lem,
}
use pulsar_beam.Route.Tokens.{token_subject_handler}
use pulsar_beam.Route.Tokens.Issue.{IsIssued, token_subject_handler-IsIssued_iff}
use pulsar_beam.Route.Tables.{get_effective_routes}
use pulsar_beam.Route.Tables.Guards.{
  all_guarded, any_manages, get_effective_routes-guarded, get_effective_routes-manages,
}
use pulsar_beam.Tests.Samples.{server, config, msg, pulsar, consume, ask}

parts : Unit {0}
unfolding consumer_config_from_http_parts get_topic_fn_from_route consumer_params subscription_name
    receiver_header receiver_token header_get is_restricted str_contains allowed_pulsar_urls
    query_param_string query_param_int build_topic_fn assign_string get_subscription_type
    get_initial_position lookup insert trim_space split replace_first atoi to_lower
parts = tt

abbrev billing : ConsumerConfig
billing = record {
  token = "abc";
  topic_fn = "persistent://acme/ns/orders";
  pulsar_url = "pulsar://broker:6650";
  params = record { sub_name = "billing"; sub_init_pos = latest; sub_type = exclusive };
}

consumer_config_from_http_parts-eq-ok_test :
    IsRouted consume.vars "persistent://acme/ns/orders"
    × IsNamed (ok "1") (query_param_string consume.query "SubscriptionName" "") "billing"
    × (is_restricted (allowed_pulsar_urls config) ≡ true
        → Any (λ v. trim_space v ≡ trim_space billing.pulsar_url) (allowed_pulsar_urls config))
unfolding parts
consumer_config_from_http_parts-eq-ok_test =
    consumer_config_from_http_parts-eq-ok server (ok "1") consume billing refl

abbrev encode : PulsarMessages → Result String
encode messages = ok "[]"

abbrev incoming : pulsar_beam.Prelude.List Arrival
incoming = message (msg "a") ∷ timeout ∷ []

poll_handler_lem_test :
    let batch = arrived (pos_part (batch_size consume)) incoming in
    ((poll_handler server pulsar encode (ok "1") consume incoming).1
      ≡ map ack batch ++ poll_deferred "billing")
    × ((poll_handler server pulsar encode (ok "1") consume incoming).0.status
        ≡ some (
            if nat_eq (length batch) 0
            then 204
            else encoded_status (encode (batch_of (batch_size consume) batch))))
unfolding parts get_pulsar_client_consumer
poll_handler_lem_test =
    poll_handler_lem server pulsar encode (ok "1") consume incoming billing refl refl

abbrev halves : Body
halves = chunk "ab" (finished "cd")

read_all_lem_test :
    (len ("x" <> content halves) < 6 → read_all 6 "x" halves ≡ ok ("x" <> content halves))
    × (6 < len ("x" <> content halves) → read_all 6 "x" halves ≡ err "Buffer overflow")
unfolding failure
read_all_lem_test = read_all_lem 6 "x" halves refl

abbrev gunzip : Body → Result Body
gunzip body = ok body

abbrev send : Sent → Option String
send sent = none

receive_handler_lem_example :
    ((receive_handler server gunzip send consume halves).1
      ≡ some (
          message_of consume
            (receiver "abc" "" "pulsar://broker:6650")
            "persistent://acme/ns/orders"
            halves))
    × ((receive_handler server gunzip send consume halves).0.status ≡ some 200)
unfolding parts failure open_body content request_text has_option includes
receive_handler_lem_example =
    receive_handler_lem server gunzip send consume halves halves
      (receiver "abc" "" "pulsar://broker:6650") "persistent://acme/ns/orders" refl refl
      (omega arith) refl refl

token_subject_handler-IsIssued_iff_example :
    ((token_subject_handler server (λ subject. ok "t") (ask "admin")).status ≡ some 200)
    ↔ IsIssued server (λ subject. ok "t") (ask "admin")
token_subject_handler-IsIssued_iff_example =
    token_subject_handler-IsIssued_iff server (λ subject. ok "t") (ask "admin")

get_effective_routes-guarded_test : all_guarded (get_effective_routes "http") ≡ true
get_effective_routes-guarded_test = get_effective_routes-guarded "http"

get_effective_routes-manages_test : any_manages (get_effective_routes "http2") ≡ false
get_effective_routes-manages_test = get_effective_routes-manages "http2"
