-- ===== src/Route/Consumers/Replies.antt =====
-- What a poll is answered.
use pulsar_beam.Prelude.{
  nat_eq, if◌then◌else◌, inl, inr, Bool-cases, Result-cases, ℕ, String, some, List, ◌≡◌, refl,
  Result, ok, err, length, map, ◌++◌,
}
use pulsar_beam.Prelude.Int.{ℤ, pos, pos_part}
use pulsar_beam.Model.Message.{PulsarMessages, is_empty}
use pulsar_beam.Util.{query_param_int}
use pulsar_beam.Broker.Poll.{
  Pulsar, Arrival, ack, poll_options, get_pulsar_client_consumer, poll_deferred,
}
use pulsar_beam.Broker.Poll.Batches.{arrived, batch_of, poll_batch_messages_lem}
use pulsar_beam.Route.Http.{Server, Request}
use pulsar_beam.Route.Consumers.{
  ConsumerConfig, consumer_config_from_http_parts, poll_handler, poll_reply,
}

abbrev pub batch_size : Request → ℤ
batch_size r = query_param_int r.query "batchSize" (pos 10)

abbrev pub encoded_status : Result String → ℕ
encoded_status (ok json) = 200
encoded_status (err e) = 500

module _ (server : Server) (pulsar : Pulsar)
    (encode_messages : PulsarMessages → Result String) where
  reply_status :
      (messages : PulsarMessages)
      → (poll_reply server pulsar encode_messages (ok messages)).status
        ≡ some (if is_empty messages then 204 else encoded_status (encode_messages messages))
  reply_status messages = elim (Bool-cases (is_empty messages)) [
    | inl none_there ↦ rw none_there refl
    | inr some_there ↦ elim (Result-cases (encode_messages messages)) [
      | inl (json, encoded) ↦ rw (some_there, encoded) refl
      | inr (e, bad) ↦ rw (some_there, bad) refl
    ]
  ]

  -- A poll that is accepted and connects acknowledges what arrives before the first timeout, at
  -- most the batch size, before it closes, and is answered 204 if that is nothing, 200 if it can be
  -- encoded, and 500 if not, although it has been acknowledged then.
  pub poll_handler_lem :
      (uuid : Result String) (r : Request) (arrivals : List Arrival) (config : ConsumerConfig)
      → consumer_config_from_http_parts server uuid r ≡ ok config
      → get_pulsar_client_consumer pulsar config.pulsar_url config.token
          (poll_options config.topic_fn config.params.sub_name config.params.sub_type)
        ≡ ok tt
      → let batch = arrived (pos_part (batch_size r)) arrivals in
        ((poll_handler server pulsar encode_messages uuid r arrivals).1
          ≡ map ack batch ++ poll_deferred config.params.sub_name)
        × ((poll_handler server pulsar encode_messages uuid r arrivals).0.status
            ≡ some (
                if nat_eq (length batch) 0
                then 204
                else encoded_status (encode_messages (batch_of (batch_size r) batch))))
  unfolding poll_handler is_empty
  poll_handler_lem uuid r arrivals config c k =
      rw
        (
          c,
          poll_batch_messages_lem pulsar config.pulsar_url config.token config.topic_fn
              config.params.sub_name config.params.sub_type (batch_size r) arrivals k,
        )
        (refl, reply_status (batch_of (batch_size r) (arrived (pos_part (batch_size r)) arrivals)))
