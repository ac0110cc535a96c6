-- ===== src/Route/Consumers.antt =====
-- src/route/handlers.go: what a request says about the consumer that it wants, and the two handlers
-- that read from it.
pub mod Parameters
pub mod Replies
use Prim.Native.String.{len}
use pulsar_beam.Prelude.{
  ℕ, String, Option, none, some, List, [], ◌∷◌, ◌++◌, Result, ok, err, ◌>>=◌, ltb, nat_eq,
  if◌then◌else◌,
}
use pulsar_beam.Prelude.Int.{ℤ, pos}
use pulsar_beam.Prelude.Maps.{Map, lookup}
use pulsar_beam.Strings.{◌<>◌, has_prefix, replace_first}
use pulsar_beam.Model.Topic.{
  SubscriptionType, InitialPosition, get_subscription_type, get_initial_position, non_resumable,
}
use pulsar_beam.Model.Message.{Message, PulsarMessages, is_empty}
use pulsar_beam.Util.{
  Values, Receiver, receiver_header, query_param_string, query_param_int, build_topic_fn,
  allowed_pulsar_urls,
}
use pulsar_beam.Broker.Poll.{
  Pulsar, ConsumerOptions, Arrival, Call, ack, unsubscribe, close_consumer, close_client,
  get_pulsar_client_consumer, poll_batch_messages,
}
use pulsar_beam.Route.Http.{
  Request, Server, Writer, fresh, write_header, write, set_content_type, response_error_json,
  json_utf8,
}

abbrev pub topic_part : Option String → Result String
topic_part none = err "missing topic parts"
topic_part (some part) = ok part

unfoldable pub get_topic_fn_from_route : Map String → Result String
unfolding lookup build_topic_fn
get_topic_fn_from_route vars = do
  tenant ← topic_part (lookup "tenant" vars)
  namespace ← topic_part (lookup "namespace" vars)
  topic ← topic_part (lookup "topic" vars)
  persistent ← topic_part (lookup "persistent" vars)
  build_topic_fn persistent tenant namespace topic

pub record ConsumerParams : Type 0 where
  pub sub_name : String
  pub sub_init_pos : InitialPosition
  pub sub_type : SubscriptionType

abbrev pub new_name : Result String → Result String
new_name (ok name) = ok (non_resumable <> name)
new_name (err e) = err ("failed to generate uuid error " <> e)

unfoldable pub subscription_name : Result String → String → Result String
subscription_name uuid name =
    if ltb 0 (len name)
    then if ltb (len name) 5
      then err "subscription name must be more than 4 characters"
      else ok name
    else new_name uuid

-- `uuid` is what `NewUUID` returns, if it is called.
unfoldable pub consumer_params : Result String → Values → Result ConsumerParams
unfolding query_param_string get_subscription_type get_initial_position subscription_name
consumer_params uuid params = do
  sub_type ← get_subscription_type (query_param_string params "SubscriptionType" "exclusive")
  sub_init_pos ←
      get_initial_position (query_param_string params "SubscriptionInitialPosition" "latest")
  sub_name ← subscription_name uuid (query_param_string params "SubscriptionName" "")
  ok (record { sub_name = sub_name; sub_init_pos = sub_init_pos; sub_type = sub_type })

pub record ConsumerConfig : Type 0 where
  pub token : String
  pub topic_fn : String
  pub pulsar_url : String
  pub params : ConsumerParams

unfoldable pub consumer_config_from_http_parts :
    Server → Result String → Request → Result ConsumerConfig
unfolding receiver_header get_topic_fn_from_route consumer_params allowed_pulsar_urls
consumer_config_from_http_parts server uuid r = do
  receiver ← receiver_header server.config (allowed_pulsar_urls server.config) r.headers
  topic_fn ← get_topic_fn_from_route r.vars
  params ← consumer_params uuid r.query
  ok (record {
    token = receiver.token;
    topic_fn = topic_fn;
    pulsar_url = receiver.pulsar_url;
    params = params;
  })

module _ (server : Server) (pulsar : Pulsar)
    (encode_messages : PulsarMessages → Result String) where
  -- `PollHandler` sets the content type before it polls.
  abbrev poll_started : Writer
  poll_started = set_content_type json_utf8 fresh

  abbrev poll_encoded : Result String → Writer
  poll_encoded (err e) = response_error_json server.coder e 500 poll_started
  poll_encoded (ok data_json) = write data_json (write_header 200 poll_started)

  abbrev pub poll_reply : Result PulsarMessages → Writer
  poll_reply (err e) = response_error_json server.coder e 500 poll_started
  poll_reply (ok messages) =
      if is_empty messages
      then write_header 204 poll_started
      else poll_encoded (encode_messages messages)

  abbrev poll_config : Request → List Arrival → Result ConsumerConfig → Writer × List Call
  poll_config r arrivals (err e) = (response_error_json server.coder e 422 fresh, [])
  poll_config r arrivals (ok config) =
      let (polled, calls) =
        poll_batch_messages pulsar config.pulsar_url config.token config.topic_fn
          config.params.sub_name config.params.sub_type
          (query_param_int r.query "batchSize" (pos 10)) arrivals in
      (poll_reply polled, calls)

  unfoldable pub poll_handler : Result String → Request → List Arrival → Writer × List Call
  unfolding consumer_config_from_http_parts poll_batch_messages query_param_int is_empty
  poll_handler uuid r arrivals =
      poll_config r arrivals (consumer_config_from_http_parts server uuid r)

  -- One message of the stream of events.
  abbrev sse_event : Message → Writer → Writer
  sse_event msg w =
      write ("data: " <> msg.payload <> "\n\n")
        (write (replace_first ("id: " <> msg.id <> "\n") "&" "") w)

  -- The loop of `SSEHandler` over the messages that come before the request ends.
  unfoldable pub sse_loop : List Message → Writer → Writer × List Call
  unfolding replace_first
  sse_loop [] w = (w, [])
  sse_loop (msg ∷ messages) w =
      let (w', calls) = sse_loop messages (sse_event msg w) in (w', ack msg ∷ calls)

  unfoldable pub sse_deferred : String → List Call
  unfolding has_prefix
  sse_deferred sub_name =
      (if has_prefix sub_name non_resumable then unsubscribe ∷ [] else [])
      ++ (close_consumer ∷ close_client ∷ [])

  abbrev sse_connected : String → List Message → Result (Unit {0}) → Writer × List Call
  sse_connected sub_name messages (err e) =
      (response_error_json server.coder e 500 (set_content_type "text/event-stream" fresh), [])
  sse_connected sub_name messages (ok _) =
      let (w, calls) = sse_loop messages (set_content_type "text/event-stream" fresh) in
      (w, calls ++ sse_deferred sub_name)

  abbrev sse_config : List Message → Result ConsumerConfig → Writer × List Call
  sse_config messages (err e) = (response_error_json server.coder e 422 fresh, [])
  sse_config messages (ok config) = sse_connected config.params.sub_name messages (
      get_pulsar_client_consumer pulsar config.pulsar_url config.token (record {
        topic = config.topic_fn;
        subscription_name = config.params.sub_name;
        subscription_initial_position = config.params.sub_init_pos;
        subscription_type = config.params.sub_type;
      }))

  -- Over a writer that can flush.
  unfoldable pub sse_handler : Result String → Request → List Message → Writer × List Call
  unfolding consumer_config_from_http_parts get_pulsar_client_consumer sse_loop sse_deferred
  sse_handler uuid r messages = sse_config messages (consumer_config_from_http_parts server uuid r)
