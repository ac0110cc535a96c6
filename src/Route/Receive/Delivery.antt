-- ===== src/Route/Receive/Delivery.antt =====
-- The message that a request becomes.
use pulsar_beam.Route.Consumers.{get_topic_fn_from_route}
use pulsar_beam.Route.Http.{Request, Server}
use pulsar_beam.Util.{
  Receiver, receiver_header, allowed_pulsar_urls, assign_string, query_param_string,
}
use Prim.Native.String.{len}
use pulsar_beam.Prelude.{
  ℕ, ◌<◌, String, Option, none, some, inl, inr, Option-cases, Result, ok, err, ◌≡◌, refl, arith,
  ◌==◌, ◌∷◌, [],
}
use pulsar_beam.Strings.{◌<>◌}
use pulsar_beam.Strings.Prefixes.{<>_assoc}
use pulsar_beam.Strings.Lengths.{len-<>}
use pulsar_beam.Route.Receive.{
  Body, chunk, finished, broken, read_all, open_body, Sent, request_text, receive_handler,
  worker_buffer_size,
}

-- All that a body holds, and the error that it ends with.
unfoldable pub content : Body → String
content (chunk s body) = s <> content body
content (finished s) = s
content (broken s e) = s

unfoldable pub failure : Body → Option String
failure (chunk s body) = failure body
failure (finished s) = none
failure (broken s e) = some e

-- However a body comes in pieces: if it comes to its end and fits into the buffer with room to
-- spare, behind what is there already, then all of it is read; if it does not fit, the reading ends
-- with the error of the overflow.
pub read_all_lem :
    (limit : ℕ) (acc : String) (body : Body)
    → failure body ≡ none
    → (len (acc <> content body) < limit → read_all limit acc body ≡ ok (acc <> content body))
      × (limit < len (acc <> content body) → read_all limit acc body ≡ err "Buffer overflow")
unfolding content failure read_all
read_all_lem limit acc (broken s e) h = cc
read_all_lem limit acc (finished s) h = (λ k. ground arith, λ k. ground arith)
read_all_lem limit acc (chunk s body) h = (
  λ k. ground (
    arith,
    <>_assoc acc s (content body),
    len-<> (acc <> s) (content body),
    read_all_lem limit (acc <> s) body h,
  ),
  λ k. ground (
    arith,
    <>_assoc acc s (content body),
    len-<> (acc <> s) (content body),
    read_all_lem limit (acc <> s) body h,
  ),
)

-- What a request is turned into.
abbrev pub message_of : Request → Receiver → String → Body → Sent
message_of r receiver topic_fn body = record {
  url = receiver.pulsar_url;
  token = receiver.token;
  topic = assign_string (receiver.topic_fn ∷ topic_fn ∷ []);
  payload = request_text r <> content body;
  async = query_param_string r.query "mode" "" == "async";
}

module _ (server : Server) (gunzip : Body → Result Body) (send : Sent → Option String) where
  -- A request for a cluster that it may reach and a topic that its route spells out, with a body
  -- that decodes, comes to its end, and fits into the buffer with room to spare, behind the text of
  -- the request, becomes one message that holds that text and the whole body, on the topic of the
  -- TopicFn header or else of the route; the reply has status 200 if the driver takes the message
  -- and 503 if not.
  pub receive_handler_lem :
      (r : Request) (body decoded_body : Body) (receiver : Receiver) (topic_fn : String)
      → open_body gunzip r body ≡ ok decoded_body
      → failure decoded_body ≡ none
      → len (request_text r <> content decoded_body) < worker_buffer_size
      → receiver_header server.config (allowed_pulsar_urls server.config) r.headers ≡ ok receiver
      → get_topic_fn_from_route r.vars ≡ ok topic_fn
      → ((receive_handler server gunzip send r body).1
          ≡ some (message_of r receiver topic_fn decoded_body))
        × ((receive_handler server gunzip send r body).0.status
            ≡ some (elim (send (message_of r receiver topic_fn decoded_body)) [
              | none ↦ 200
              | some _ ↦ 503
            ]))
  unfolding receive_handler
  receive_handler_lem r body decoded_body receiver topic_fn o f fits rec route =
      elim (Option-cases (send (message_of r receiver topic_fn decoded_body))) [
        | inl sent ↦
            rw
              (
                o,
                (read_all_lem worker_buffer_size (request_text r) decoded_body f).0 fits,
                rec,
                route,
              )
              (refl, rw sent refl)
        | inr (e, failed) ↦
            rw
              (
                o,
                (read_all_lem worker_buffer_size (request_text r) decoded_body f).0 fits,
                rec,
                route,
              )
              (refl, rw failed refl)
      ]
