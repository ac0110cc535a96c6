-- ===== src/Driver/Sending/Attempts.antt =====
-- How often a message is sent, and when a send counts as done.
use pulsar_beam.Prelude.{
  ℕ, zero, suc, ◌+◌, ◌-◌, ◌≤◌, String, Option, none, some, List, [], ◌∷◌, Bool, true, Result, ok,
  err, ◌≡◌, refl, length, arith,
}
use pulsar_beam.Prelude.Int.{pos_part}
use pulsar_beam.Driver.{
  Producer, Outcome, acknowledged, producer_closed, failed, Cluster, Driver, called,
}
use pulsar_beam.Driver.Producers.{get_pulsar_producer}
use pulsar_beam.Driver.Sending.{Attempt, Sent, settle, attempted, send_left, send_to_pulsar}

abbrev one_if_acknowledged : Outcome → ℕ
one_if_acknowledged acknowledged = 1
one_if_acknowledged (failed e) = 0
one_if_acknowledged (producer_closed e) = 0

-- How many of the sends the broker has acknowledged.
abbrev pub count_acknowledged : List Attempt → ℕ
count_acknowledged [] = 0
count_acknowledged (a ∷ attempts) = one_if_acknowledged a.outcome + count_acknowledged attempts

abbrev Retries : Attempt → List Attempt → Type 0
Retries a [] = Unit
Retries a (_ ∷ _) = (e : String) × (a.outcome ≡ producer_closed e)

-- Every send but the last one found its producer closed.
abbrev pub OnlyClosed : List Attempt → Type 0
OnlyClosed [] = Unit
OnlyClosed (a ∷ attempts) = Retries a attempts × OnlyClosed attempts

abbrev pub one_if_done : Option String → ℕ
one_if_done none = 1
one_if_done (some e) = 0

-- At most so many sends, of which one was acknowledged if there is no error, and none otherwise; a
-- send is followed by another only if it found its producer closed.
pub record IsCounted (most : ℕ) (error : Option String) (attempts : List Attempt) : Type 0 where
  pub bound : length attempts ≤ most
  pub once : count_acknowledged attempts ≡ one_if_done error
  pub retried : OnlyClosed attempts

abbrev Counted : ℕ → Sent → Type 0
Counted most (e, attempts, d) = IsCounted most e attempts

retries :
    (p : Producer) (payload e : String) (later : List Attempt)
    → Retries (record { producer = p; payload = payload; outcome = producer_closed e }) later
retries p payload e [] = tt
retries p payload e (_ ∷ _) = (e, refl)

settle_last :
    (p : Producer) (payload : String) (d : Driver) (o : Outcome)
    → Counted 1 (settle p payload none d o)
settle_last p payload d acknowledged = record {
  bound = omega arith;
  once = omega arith;
  retried = (tt, tt);
}
settle_last p payload d (failed e) = record {
  bound = omega arith;
  once = omega arith;
  retried = (tt, tt);
}
settle_last p payload d (producer_closed e) = record {
  bound = omega arith;
  once = omega arith;
  retried = (tt, tt);
}

settle_again :
    (p : Producer) (payload : String) (again : Driver → Sent) (d : Driver) (o : Outcome) (most : ℕ)
    → 1 ≤ most
    → ((d : Driver) → Counted most (again d))
    → Counted (suc most) (settle p payload (some again) d o)
settle_again p payload again d acknowledged most pos h = record {
  bound = omega arith;
  once = omega arith;
  retried = (tt, tt);
}
settle_again p payload again d (failed e) most pos h = record {
  bound = omega arith;
  once = omega arith;
  retried = (tt, tt);
}
settle_again p payload again d (producer_closed e) most pos h =
    let c = h d in
    record {
      bound = omega (arith, c.bound);
      once = omega (arith, c.once);
      retried = (retries p payload e (again d).1, c.retried);
    }

module _ (cluster : Cluster) where
  attempted_last :
      (payload : String) (x : Result Producer × Driver)
      → Counted 1 (attempted cluster payload none x)
  attempted_last payload (err e, d) = record {
    bound = omega arith;
    once = omega arith;
    retried = tt;
  }
  attempted_last payload (ok p, d) =
      settle_last p payload (called d) (cluster.send d.calls p payload)

  attempted_again :
      (payload : String) (again : Driver → Sent) (x : Result Producer × Driver) (most : ℕ)
      → 1 ≤ most
      → ((d : Driver) → Counted most (again d))
      → Counted (suc most) (attempted cluster payload (some again) x)
  attempted_again payload again (err e, d) most pos h = record {
    bound = omega arith;
    once = omega arith;
    retried = tt;
  }
  attempted_again payload again (ok p, d) most pos h =
      settle_again p payload again (called d) (cluster.send d.calls p payload) most pos h

  send_left-Counted :
      (left : ℕ) (url token topic payload : String) (reconnect : Bool) (d : Driver)
      → Counted (suc left) (send_left cluster left url token topic payload reconnect d)
  unfolding send_left
  send_left-Counted zero url token topic payload reconnect d =
      attempted_last payload (get_pulsar_producer cluster url token topic reconnect d)
  send_left-Counted (suc left) url token topic payload reconnect d =
      attempted_again payload (send_left cluster left url token topic payload true)
        (get_pulsar_producer cluster url token topic reconnect d) (suc left) (omega arith)
        (λ d'. send_left-Counted left url token topic payload true d')

  -- A message is sent at most once more than there are retries left, each send but the last found its
  -- producer closed, and the broker has acknowledged exactly one of the sends if no error is
  -- returned, and none if one is.
  pub send_to_pulsar-IsCounted :
      (url token topic payload : String) (reconnect : Bool) (retried : ℕ) (d : Driver)
      → IsCounted
          (suc (pos_part cluster.send_retry_limit - retried))
          (send_to_pulsar cluster url token topic payload reconnect retried d).0
          (send_to_pulsar cluster url token topic payload reconnect retried d).1
  unfolding send_to_pulsar
  send_to_pulsar-IsCounted url token topic payload reconnect retried d =
      send_left-Counted (pos_part cluster.send_retry_limit - retried) url token topic payload
        reconnect d
