-- ===== src/Route/Receive.antt =====
-- `ReceiveHandler` of src/route/handlers.go: a request body becomes one Pulsar message.
pub mod Delivery
pub mod Pool
use Prim.Native.String.{len}
use pulsar_beam.Prelude.{
  ℕ, String, Bool, true, false, not, ◌||◌, ◌&&◌, Option, none, some, List, [], ◌∷◌, Result, ok, err,
  ltb, if◌then◌else◌, ◌==◌,
}
use pulsar_beam.Prelude.Maps.{lookup}
use pulsar_beam.Strings.{◌<>◌}
use pulsar_beam.Util.{
  Values, Receiver, receiver_header, allowed_pulsar_urls, assign_string, header_get, first,
  query_param_string,
}
use pulsar_beam.Route.Http.{Request, Server, Writer, fresh, write_header, response_error_json}
use pulsar_beam.Route.Consumers.{get_topic_fn_from_route}

-- What the reads of a body return, one after the other. The last read comes with `io.EOF` or with
-- another error.
pub data Body : Type 0 where
  chunk : String → Body → Body
  finished : String → Body
  broken : String → String → Body

abbrev pub worker_buffer_size : ℕ
worker_buffer_size = 5242881

unfoldable pub has_option : Values → String → Bool
unfolding lookup
has_option query name = elim (lookup name query) [ none ↦ false | some _ ↦ true ]

-- `values[0] != "false"`, where the option is given.
unfoldable pub includes : Values → String → Bool
unfolding lookup
includes query name = elim (lookup name query) [
  | none ↦ false
  | some values ↦ not (first values == "false")
]

abbrev request_line : Request → String
request_line r = r.method <> " " <> r.request_uri <> " " <> r.proto <> "\r\n"

abbrev header_lines : Values → String
header_lines [] = ""
header_lines ((name, values) ∷ h) = name <> ": " <> first values <> "\r\n" <> header_lines h

-- What the message holds in front of the body.
unfoldable pub request_text : Request → String
unfolding has_option includes
request_text r =
    (if includes r.query "includeRequestLine" then request_line r else "")
    <> (if includes r.query "includeHeaders" then header_lines r.headers else "")
    <> (if has_option r.query "includeRequestLine" || has_option r.query "includeHeaders"
        then "\r\n\r\n"
        else "")

-- The loop that reads into what is left of the buffer behind `acc`. A read fills at most the space
-- that is left, so a longer chunk fills the buffer and the rest of it is not read.
unfoldable pub read_all : ℕ → String → Body → Result String
read_all limit acc (chunk s body) =
    let rest = read_all limit (acc <> s) body in
    if ltb (len (acc <> s)) limit then rest else err "Buffer overflow"
read_all limit acc (finished s) =
    if ltb limit (len (acc <> s)) then err "Buffer overflow" else ok (acc <> s)
read_all limit acc (broken s e) =
    if ltb limit (len (acc <> s)) then err "Buffer overflow" else err e

-- The arguments of `SendToPulsar`.
pub record Sent : Type 0 where
  pub url : String
  pub token : String
  pub topic : String
  pub payload : String
  pub async : Bool

-- The body behind its encoding.
unfoldable pub open_body : (Body → Result Body) → Request → Body → Result Body
unfolding header_get
open_body gunzip r body =
    if header_get r.headers "Content-Encoding" == "gzip" then gunzip body else ok body

module _ (server : Server) (gunzip : Body → Result Body) (send : Sent → Option String) where
  abbrev received_error : String → ℕ → Writer × Option Sent
  received_error e code = (response_error_json server.coder e code fresh, none)

  abbrev send_reply : Option String → Writer
  send_reply none = write_header 200 fresh
  send_reply (some e) = response_error_json server.coder e 503 fresh

  abbrev send_as : Request → String → Receiver → String → Writer × Option Sent
  send_as r payload receiver topic_fn =
      let sent : Sent = record {
        url = receiver.pulsar_url;
        token = receiver.token;
        topic = assign_string (receiver.topic_fn ∷ topic_fn ∷ []);
        payload = payload;
        async = query_param_string r.query "mode" "" == "async";
      } in
      (send_reply (send sent), some sent)

  -- The topic of the header comes before the one of the route.
  abbrev with_topic : Request → String → Receiver → Result String → Writer × Option Sent
  with_topic r payload receiver (ok topic_fn) = send_as r payload receiver topic_fn
  with_topic r payload receiver (err e) =
      if receiver.topic_fn == "" then received_error e 422 else send_as r payload receiver ""

  abbrev with_receiver : Request → String → Result Receiver → Writer × Option Sent
  with_receiver r payload (err e) = received_error e 401
  with_receiver r payload (ok receiver) =
      with_topic r payload receiver (get_topic_fn_from_route r.vars)

  abbrev with_payload : Request → Result String → Writer × Option Sent
  with_payload r (err e) = received_error e 500
  with_payload r (ok payload) =
      with_receiver r payload
        (receiver_header server.config (allowed_pulsar_urls server.config) r.headers)

  abbrev with_body : Request → Result Body → Writer × Option Sent
  with_body r (err e) = received_error e 500
  with_body r (ok body) = with_payload r (read_all worker_buffer_size (request_text r) body)

  -- The reply, and the message that is handed to the Pulsar driver, if there is one.
  unfoldable pub receive_handler : Request → Body → Writer × Option Sent
  unfolding request_text read_all receiver_header allowed_pulsar_urls get_topic_fn_from_route
      assign_string query_param_string open_body
  receive_handler r body = with_body r (open_body gunzip r body)
