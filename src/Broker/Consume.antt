-- ===== src/Broker/Consume.antt =====
-- `ConsumeLoop` of src/broker/webhook.go and what it calls for each message.
pub mod Headers
pub mod Exits
pub mod Ends
use pulsar_beam.Prelude.{
  ℕ, suc, String, Char, Bool, true, false, ◌&&◌, ◌||◌, Option, none, some, List, [], ◌∷◌, ◌++◌,
  Result, ok, err, ltb, leb, nat_eq, if◌then◌else◌, ◌==◌, ◌>>=◌, ◌>>◌,
}
use pulsar_beam.Prelude.Maps.{Map}
use pulsar_beam.Strings.{◌<>◌, same_char, trim_space}
use pulsar_beam.Model.Topic.{WebhookConfig, get_subscription_type, get_initial_position}
use pulsar_beam.Model.Message.{Message}
use pulsar_beam.Util.{Values, header_set}
use pulsar_beam.Broker.Webhook.{Registry, write_webhook, delete_webhook, deleted, panicked}

-- `json.Valid`, `Time.String`, and the status with which a POST is answered in the end, if it is.
pub record Web : Type 0 where
  pub valid_json : String → Bool
  pub show_time : ℕ → String
  pub post : String → String → Values → Option ℕ

-- `strings.SplitAfterN(h, ":", 2)`, with the separator dropped from the first part, which holds no
-- other. `none` where there is no colon.
unfoldable pub split_header : String → Option (String × String)
split_header String.[] = none
split_header (String.◌∷◌ c s) = elim (split_header s) [
  | none ↦ if same_char c ":" then some ("", s) else none
  | some (name, value) ↦ if same_char c ":" then some ("", s) else some (String.◌∷◌ c name, value)
]

abbrev set_split : Option (String × String) → Values → Values
set_split none h = h
set_split (some (name, value)) h = header_set (trim_space name) (trim_space value) h

-- The headers of the request. Misformed ones are dropped, and the last one of a name counts.
unfoldable pub set_headers : List String → Values → Values
unfolding split_header trim_space header_set
set_headers [] h = h
set_headers (text ∷ headers) h = set_headers headers (set_split (split_header text) h)

abbrev status_of : Option ℕ → ℕ
status_of none = 500
status_of (some code) = code

unfoldable pub push_webhook : Web → String → String → List String → ℕ
unfolding set_headers
push_webhook web url payload headers = status_of (web.post url payload (set_headers headers []))

-- What is done about one message: the headers that it was pushed with, whether it is acknowledged,
-- and whether the response goes on to Pulsar.
pub record Push : Type 0 where
  pub payload : String
  pub headers : List String
  pub acked : Bool
  pub forwarded : Bool

abbrev pub is_success : ℕ → Bool
is_success code = leb 200 code && ltb code 300

unfoldable pub push_and_ack : Web → String → String → List String → Push
unfolding push_webhook
push_and_ack web url payload headers =
    let code = push_webhook web url payload headers in
    record {
      payload = payload;
      headers = headers;
      acked = is_success code || nat_eq code 422;
      forwarded = is_success code;
    }

abbrev property_headers : Map String → List String
property_headers [] = []
property_headers ((k, v) ∷ properties) =
    ("PulsarProperties-" <> k <> ":" <> v) ∷ property_headers properties

-- The headers that a message adds. The number 0 is the zero time.
unfoldable pub message_headers : Web → Message → List String
message_headers web msg =
    ("PulsarMessageId:" <> msg.id)
    ∷ ("PulsarPublishedTime:" <> web.show_time msg.publish_time)
    ∷ ("PulsarTopic:" <> msg.topic)
    ∷ ((if nat_eq msg.event_time 0
          then []
          else ("PulsarEventTime:" <> web.show_time msg.event_time) ∷ [])
        ++ (property_headers msg.properties
            ++ (if web.valid_json msg.payload then "content-type:application/json" ∷ [] else [])))

-- What a turn of the loop meets: a message, no message, or an error of `Receive` and then either
-- the signal to stop, or the tick and what connecting again comes to.
pub data Event : Type 0 where
  received : Message → Event
  nothing : Event
  signalled : Event
  reconnected : Event
  not_reconnected : String → Event

-- How the loop ends. It goes on waiting where its events end.
pub data Exit : Type 0 where
  waiting stopped max_reached : Exit
  lost : String → Exit

abbrev pub retry_max : ℕ
retry_max = 3

module _ (web : Web) (url : String) where
  -- `headers` is the variable outside the loop.
  unfoldable pub consume_from : ℕ → List String → List Event → List Push × Exit
  unfolding push_and_ack message_headers
  consume_from retry headers [] = ([], if ltb retry_max retry then max_reached else waiting)
  consume_from retry headers (received msg ∷ events) =
      let headers' = headers ++ message_headers web msg in
      let (pushes, exit) = consume_from 0 headers' events in
      if ltb retry_max retry
      then ([], max_reached)
      else (push_and_ack web url msg.payload headers' ∷ pushes, exit)
  consume_from retry headers (nothing ∷ events) =
      let rest = consume_from retry headers events in
      if ltb retry_max retry then ([], max_reached) else rest
  consume_from retry headers (signalled ∷ events) =
      ([], if ltb retry_max retry then max_reached else stopped)
  consume_from retry headers (reconnected ∷ events) =
      let rest = consume_from (suc retry) headers events in
      if ltb retry_max retry then ([], max_reached) else rest
  consume_from retry headers (not_reconnected e ∷ events) =
      ([], if ltb retry_max retry then max_reached else lost e)

abbrev pub close_channel : ℕ → Registry → Registry
close_channel c reg = record reg { closed = c ∷ reg.closed }

-- What the end of the loop does to the registry, `defer close(terminate)` included; `none` is a
-- panic.
unfoldable pub leave : String → ℕ → Exit → Registry → Option Registry
unfolding delete_webhook
leave key c waiting reg = some reg
leave key c stopped reg = some (close_channel c reg)
leave key c (lost e) reg = some (close_channel c reg)
leave key c max_reached reg = elim (delete_webhook key reg) [
  | panicked ↦ none
  | deleted found reg' ↦ some (close_channel c reg')
]

-- The loop makes its channel and enters it under its key.
unfoldable pub enter : String → Registry → Registry
unfolding write_webhook
enter key reg = write_webhook key reg.next (record reg { next = suc reg.next })

-- What is tried before the loop begins. `connect` is the error of `GetPulsarConsumer`.
unfoldable pub open_consumer : WebhookConfig → Option String → Result (Unit {0})
unfolding get_subscription_type get_initial_position
open_consumer wh none = do
  _ ← get_subscription_type wh.subscription_type
  _ ← get_initial_position wh.initial_position
  ok tt
open_consumer wh (some e) = do
  _ ← get_subscription_type wh.subscription_type
  _ ← get_initial_position wh.initial_position
  err ("Failed to create Pulsar subscription " <> e)

-- The whole of it, if nothing else touches the registry meanwhile.
unfoldable pub consume_loop :
    Web
    → String
    → WebhookConfig
    → Option String
    → List Event
    → Registry
    → Result (List Push × Exit × Option Registry)
unfolding open_consumer enter consume_from leave
consume_loop web key wh connect events reg = do
  open_consumer wh connect
  let (pushes, exit) = consume_from web wh.url 0 wh.headers events
  ok (pushes, exit, leave key reg.next exit (enter key reg))
