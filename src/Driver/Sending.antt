-- ===== src/Driver/Sending.antt =====
-- `SendToPulsar` of src/pulsardriver/pulsar-producer.go.
pub mod Attempts
use pulsar_beam.Prelude.{
  ℕ, zero, suc, ◌-◌, String, Option, none, some, List, [], ◌∷◌, ◌++◌, Bool, true, false, Result, ok,
  err,
}
use pulsar_beam.Prelude.Int.{pos_part}
use pulsar_beam.Driver.{
  Producer, Outcome, acknowledged, producer_closed, failed, Cluster, Driver, called,
}
use pulsar_beam.Driver.Producers.{get_pulsar_producer}

-- A send and what the library reported of it.
pub record Attempt : Type 0 where
  pub producer : Producer
  pub payload : String
  pub outcome : Outcome

-- The error that is returned, if there is one, the sends, and the state.
abbrev pub Sent : Type 0
Sent = Option String × List Attempt × Driver

abbrev attempt : Producer → String → Outcome → Attempt
attempt p payload outcome = record { producer = p; payload = payload; outcome = outcome }

abbrev before : List Attempt → Sent → Sent
before earlier (e, attempts, d) = (e, earlier ++ attempts, d)

-- What `retry` is given for depends on whether the limit allows it.
abbrev pub settle : Producer → String → Option (Driver → Sent) → Driver → Outcome → Sent
settle p payload retry d acknowledged = (none, attempt p payload acknowledged ∷ [], d)
settle p payload retry d (failed e) = (some e, attempt p payload (failed e) ∷ [], d)
settle p payload none d (producer_closed e) =
    (some e, attempt p payload (producer_closed e) ∷ [], d)
settle p payload (some again) d (producer_closed e) =
    before (attempt p payload (producer_closed e) ∷ []) (again d)

module _ (cluster : Cluster) where
  abbrev pub attempted : String → Option (Driver → Sent) → Result Producer × Driver → Sent
  attempted payload retry (err e, d) = (some "Failed to create Pulsar producer", [], d)
  attempted payload retry (ok p, d) =
      settle p payload retry (called d) (cluster.send d.calls p payload)

  -- The number is that of the retries that are left.
  unfoldable pub send_left : ℕ → String → String → String → String → Bool → Driver → Sent
  unfolding get_pulsar_producer
  send_left zero url token topic payload reconnect d =
      attempted payload none (get_pulsar_producer cluster url token topic reconnect d)
  send_left (suc left) url token topic payload reconnect d =
      attempted payload (some (send_left left url token topic payload true))
        (get_pulsar_producer cluster url token topic reconnect d)

  -- `SendToPulsar` where it waits for the broker.
  unfoldable pub send_to_pulsar : String → String → String → String → Bool → ℕ → Driver → Sent
  unfolding send_left
  send_to_pulsar url token topic payload reconnect retried d =
      send_left (pos_part cluster.send_retry_limit - retried) url token topic payload reconnect d

  abbrev handed_over : Result Producer × Driver → Option String × Driver
  handed_over (err e, d) = (some "Failed to create Pulsar producer", d)
  handed_over (ok p, d) = (none, called d)

  -- Where it does not, it returns as soon as the message is handed over.
  unfoldable pub send_async : String → String → String → Bool → Driver → Option String × Driver
  unfolding get_pulsar_producer
  send_async url token topic reconnect d =
      handed_over (get_pulsar_producer cluster url token topic reconnect d)

  -- The callback of `SendAsync`: the send is retried, or nothing is done.
  unfoldable pub async_done :
      ℕ → String → String → String → Outcome → Driver → Option (Option String × Driver)
  unfolding send_async
  async_done retried url token topic (producer_closed e) d =
      elim (pos_part cluster.send_retry_limit - retried) [
        | zero ↦ none
        | suc left ↦ some (send_async url token topic true d)
      ]
  async_done retried url token topic acknowledged d = none
  async_done retried url token topic (failed e) d = none
