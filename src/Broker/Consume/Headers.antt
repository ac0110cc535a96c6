-- ===== src/Broker/Consume/Headers.antt =====
-- What the webhook is sent with each message.
use pulsar_beam.Prelude.{String, List, [], ◌∷◌, ◌++◌, map, ◌≡◌, refl}
use mathlib.Core.List.{append-nil, append_assoc}
use pulsar_beam.Model.Message.{Message}
use pulsar_beam.Broker.Consume.{
  Web, Push, push_and_ack, message_headers, received, waiting, consume_from,
}

-- The headers that a run of messages adds.
unfoldable pub all_headers : Web → List Message → List String
all_headers web [] = []
all_headers web (msg ∷ messages) = message_headers web msg ++ all_headers web messages

-- Each message with the headers of all the messages that came before it, and its own.
unfoldable pub expected_pushes :
    Web → String → List String → List Message → List Message → List Push
expected_pushes web url headers before [] = []
expected_pushes web url headers before (msg ∷ messages) =
    push_and_ack web url msg.payload (headers ++ all_headers web (before ++ (msg ∷ [])))
    ∷ expected_pushes web url headers (before ++ (msg ∷ [])) messages

all_headers-snoc :
    (web : Web) (before : List Message) (msg : Message)
    → all_headers web (before ++ (msg ∷ [])) ≡ all_headers web before ++ message_headers web msg
unfolding all_headers
all_headers-snoc web [] msg = append-nil (message_headers web msg)
all_headers-snoc web (m ∷ before) msg = rw (all_headers-snoc web before msg, append_assoc) refl

consume_from_lem :
    (web : Web) (url : String) (headers : List String) (before messages : List Message)
    → consume_from web url 0 (headers ++ all_headers web before) (map received messages)
      ≡ (expected_pushes web url headers before messages, waiting)
unfolding consume_from expected_pushes
consume_from_lem web url headers before [] = refl
consume_from_lem web url headers before (msg ∷ messages) =
    rw
      (
        append_assoc,
        ← all_headers-snoc web before msg,
        consume_from_lem web url headers (before ++ (msg ∷ [])) messages,
      )
      refl

-- A loop that receives one message after the other pushes each of them once, in order, with the
-- configured headers, the headers of every message that came before it, and its own.
pub consume_from-received :
    (web : Web) (url : String) (headers : List String) (messages : List Message)
    → consume_from web url 0 headers (map received messages)
      ≡ (expected_pushes web url headers [] messages, waiting)
unfolding all_headers
consume_from-received web url headers messages =
    simp append-nil at (consume_from_lem web url headers [] messages)
