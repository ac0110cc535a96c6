-- ===== src/Broker/Poll/Batches.antt =====
-- What a batch holds, which messages are acknowledged, and what is called at the end.
use pulsar_beam.Prelude.{
  ℕ, zero, suc, ◌+◌, ◌≤◌, String, List, [], ◌∷◌, ◌++◌, map, ok, ◌≡◌, refl, true, length, arith, sym,
}
use mathlib.Core.List.{append-nil, append_assoc}
use pulsar_beam.Prelude.Int.{ℤ, pos, negsuc, pos_part, ltb_ℤ}
use pulsar_beam.Strings.{has_prefix}
use pulsar_beam.Model.Topic.{SubscriptionType, non_resumable}
use pulsar_beam.Model.Message.{
  Message, PulsarMessages, new_pulsar_messages, add_pulsar_message, to_pulsar_message,
}
use pulsar_beam.Broker.Poll.{
  Pulsar, Arrival, message, timeout, ack, unsubscribe, close_consumer, close_client, poll_loop,
  poll_deferred, poll_batch_messages, poll_options, get_pulsar_client_consumer,
}

-- The messages that arrive before the first timeout, at most so many.
unfoldable pub arrived : ℕ → List Arrival → List Message
arrived (suc n) (message msg ∷ arrivals) = msg ∷ arrived n arrivals
arrived (suc n) (timeout ∷ arrivals) = []
arrived (suc n) [] = []
arrived zero arrivals = []

abbrev pub batch_of : ℤ → List Message → PulsarMessages
batch_of size batch = record {
  limit = size;
  size = length batch;
  messages = map to_pulsar_message batch;
}

abbrev extended : PulsarMessages → List Message → PulsarMessages
extended msgs more = record msgs {
  size = msgs.size + length more;
  messages = msgs.messages ++ map to_pulsar_message more;
}

same_batch :
    (a b : PulsarMessages) → a.limit ≡ b.limit → a.size ≡ b.size → a.messages ≡ b.messages → a ≡ b
same_batch a b l s m = ground arith

extended-nil : (msgs : PulsarMessages) → msgs ≡ extended msgs []
extended-nil msgs =
    same_batch msgs (extended msgs []) refl (omega arith) (sym (append-nil msgs.messages))

has_room : (n : ℕ) (limit : ℤ) → suc n ≤ pos_part limit → ltb_ℤ (pos n) limit ≡ true
has_room n (pos k) h = ground arith
has_room n (negsuc k) h = ground arith

module _ (msg : Message) (msgs : PulsarMessages) (h : suc msgs.size ≤ pos_part msgs.limit) where
  added_lem :
      (more : List Message)
      → extended (add_pulsar_message msg msgs).1 more ≡ extended msgs (msg ∷ more)
  unfolding add_pulsar_message
  added_lem more = rw (has_room msgs.size msgs.limit h) (
      same_batch _ (extended msgs (msg ∷ more)) refl (omega arith)
        (append_assoc msgs.messages (to_pulsar_message msg ∷ []) (map to_pulsar_message more)))

  added_bound :
      (n : ℕ)
      → suc n + msgs.size ≤ pos_part msgs.limit
      → n + (add_pulsar_message msg msgs).1.size ≤ pos_part (add_pulsar_message msg msgs).1.limit
  unfolding add_pulsar_message
  added_bound n k = rw (has_room msgs.size msgs.limit h) (omega arith)

poll_loop_lem :
    (n : ℕ) (arrivals : List Arrival) (msgs : PulsarMessages)
    → n + msgs.size ≤ pos_part msgs.limit
    → poll_loop n arrivals msgs ≡ (extended msgs (arrived n arrivals), map ack (arrived n arrivals))
unfolding poll_loop arrived
poll_loop_lem zero arrivals msgs h = cc (extended-nil msgs)
poll_loop_lem (suc n) [] msgs h = cc (extended-nil msgs)
poll_loop_lem (suc n) (timeout ∷ arrivals) msgs h = cc (extended-nil msgs)
poll_loop_lem (suc n) (message msg ∷ arrivals) msgs h =
    let room : suc msgs.size ≤ pos_part msgs.limit = omega arith in
    rw
      (
        poll_loop_lem n arrivals (add_pulsar_message msg msgs).1 (added_bound msg msgs room n h),
        added_lem msg msgs room,
      )
      refl

-- A poll that connects returns the messages that arrive before the first timeout, at most as many
-- as asked for, counts them, acknowledges them and no others in that order, and then closes.
pub poll_batch_messages_lem :
    (pulsar : Pulsar) (url token topic name : String) (sub_type : SubscriptionType) (size : ℤ)
    (arrivals : List Arrival)
    → get_pulsar_client_consumer pulsar url token (poll_options topic name sub_type) ≡ ok tt
    → let batch = arrived (pos_part size) arrivals in
      poll_batch_messages pulsar url token topic name sub_type size arrivals
      ≡ (ok (batch_of size batch), map ack batch ++ poll_deferred name)
unfolding poll_batch_messages new_pulsar_messages
poll_batch_messages_lem pulsar url token topic name sub_type size arrivals h =
    rw (h, poll_loop_lem (pos_part size) arrivals (new_pulsar_messages size) (omega arith))
      (cc zero_plus)
  where
    zero_plus :
        0 + length (arrived (pos_part size) arrivals) ≡ length (arrived (pos_part size) arrivals)
    zero_plus = omega arith

-- A poll on a subscription that is not meant to last tells its consumer to unsubscribe only after
-- that consumer and its client were closed.
pub poll_batch_messages-unsubscribe :
    (pulsar : Pulsar) (url token topic name : String) (sub_type : SubscriptionType) (size : ℤ)
    (arrivals : List Arrival)
    → get_pulsar_client_consumer pulsar url token (poll_options topic name sub_type) ≡ ok tt
    → has_prefix name non_resumable ≡ true
    → (poll_batch_messages pulsar url token topic name sub_type size arrivals).1
      ≡ map ack (arrived (pos_part size) arrivals)
        ++ (close_client ∷ close_consumer ∷ unsubscribe ∷ [])
unfolding poll_deferred
poll_batch_messages-unsubscribe pulsar url token topic name sub_type size arrivals h p =
    rw (poll_batch_messages_lem pulsar url token topic name sub_type size arrivals h, p) refl
