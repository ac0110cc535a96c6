-- ===== src/Model/Message.antt =====
-- src/model/message.go: the messages that one poll returns.
use pulsar_beam.Prelude.{
  ℕ, suc, String, Bool, true, not, List, [], ◌∷◌, ◌++◌, nat_eq, if◌then◌else◌,
}
use pulsar_beam.Prelude.Int.{ℤ, pos, ltb_ℤ}
use pulsar_beam.Prelude.Maps.{Map}

-- A message of the Pulsar client; `id` is its identifier as a text, a moment is a number.
pub record Message : Type 0 where
  pub payload : String
  pub topic : String
  pub event_time : ℕ
  pub publish_time : ℕ
  pub id : String
  pub key : String
  pub properties : Map String

pub record PulsarMessage : Type 0 where
  pub payload : String
  pub topic : String
  pub event_time : ℕ
  pub publish_time : ℕ
  pub message_id : String
  pub key : String

pub record PulsarMessages : Type 0 where
  pub limit : ℤ
  pub size : ℕ
  pub messages : List PulsarMessage

unfoldable pub new_pulsar_messages : ℤ → PulsarMessages
new_pulsar_messages init_size = record { limit = init_size; size = 0; messages = [] }

unfoldable pub to_pulsar_message : Message → PulsarMessage
to_pulsar_message msg = record {
  payload = msg.payload;
  topic = msg.topic;
  event_time = msg.event_time;
  publish_time = msg.publish_time;
  message_id = msg.id;
  key = msg.key;
}

abbrev append_message : Message → PulsarMessages → PulsarMessages
append_message msg msgs = record msgs {
  size = suc msgs.size;
  messages = msgs.messages ++ (to_pulsar_message msg ∷ []);
}

-- The Boolean says whether the batch is full.
unfoldable pub add_pulsar_message : Message → PulsarMessages → Bool × PulsarMessages
add_pulsar_message msg msgs =
    if ltb_ℤ (pos msgs.size) msgs.limit
    then (not (ltb_ℤ (pos (suc msgs.size)) msgs.limit), append_message msg msgs)
    else (true, msgs)

unfoldable pub is_empty : PulsarMessages → Bool
is_empty msgs = nat_eq msgs.size 0
