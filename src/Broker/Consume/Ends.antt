-- ===== src/Broker/Consume/Ends.antt =====
-- That the loop of a consumer ends, once it does nothing but fail.
use pulsar_beam.Prelude.{
  ℕ, suc, String, Bool, true, false, List, [], ◌∷◌, ◌++◌, ◌+◌, ◌<◌, ◌≡◌, ◌≢◌, refl, arith, ltb,
  Bool-cases, inl, inr,
}
use pulsar_beam.Broker.Consume.{
  Web, Event, Exit, received, nothing, signalled, reconnected, not_reconnected, waiting,
  consume_from, retry_max,
}

-- The errors of `Receive` among the events.
unfoldable pub errors : List Event → ℕ
errors [] = 0
errors (received msg ∷ events) = errors events
errors (nothing ∷ events) = errors events
errors (signalled ∷ events) = suc (errors events)
errors (reconnected ∷ events) = suc (errors events)
errors (not_reconnected e ∷ events) = suc (errors events)

-- No message is among the events.
unfoldable pub is_silent : List Event → Bool
is_silent [] = true
is_silent (received msg ∷ events) = false
is_silent (nothing ∷ events) = is_silent events
is_silent (signalled ∷ events) = is_silent events
is_silent (reconnected ∷ events) = is_silent events
is_silent (not_reconnected e ∷ events) = is_silent events

abbrev is_waiting : Exit → Bool
is_waiting waiting = true
is_waiting _ = false

module _ (web : Web) (url : String) where
  silent-ends :
      (retry : ℕ) (headers : List String) (events : List Event)
      → is_silent events ≡ true
      → retry_max < retry + errors events
      → is_waiting (consume_from web url retry headers events).1 ≡ false
  unfolding consume_from errors is_silent
  silent-ends retry headers [] s h = ground arith
  silent-ends retry headers (received msg ∷ events) s h = cc
  silent-ends retry headers (nothing ∷ events) s h =
      ground (arith, silent-ends retry headers events s h)
  silent-ends retry headers (signalled ∷ events) s h = ground arith
  silent-ends retry headers (reconnected ∷ events) s h =
      ground (arith, silent-ends (suc retry) headers events s (ground arith))
  silent-ends retry headers (not_reconnected e ∷ events) s h = ground arith

  not_waiting : (x : Exit) → is_waiting x ≡ false → x ≢ waiting
  not_waiting x h e = cc (rw e at h)

  later-ends :
      (retry : ℕ) (headers : List String) (before events : List Event)
      → is_silent events ≡ true
      → retry_max < errors events
      → is_waiting (consume_from web url retry headers (before ++ events)).1 ≡ false
  unfolding consume_from
  later-ends retry headers [] events s h = silent-ends retry headers events s (ground arith)
  later-ends retry headers (received msg ∷ before) events s h =
      elim (Bool-cases (ltb retry_max retry)) [
        | inl over ↦ rw over refl
        | inr under ↦ rw under (later-ends 0 _ before events s h)
      ]
  later-ends retry headers (nothing ∷ before) events s h =
      ground (arith, later-ends retry headers before events s h)
  later-ends retry headers (signalled ∷ before) events s h = ground arith
  later-ends retry headers (reconnected ∷ before) events s h =
      ground (arith, later-ends (suc retry) headers before events s h)
  later-ends retry headers (not_reconnected e ∷ before) events s h = ground arith

  -- Whatever has happened before, the loop of a consumer ends if it is then given no message and
  -- meets more than three errors.
  pub consume_from-ends :
      (retry : ℕ) (headers : List String) (before events : List Event)
      → is_silent events ≡ true
      → retry_max < errors events
      → (consume_from web url retry headers (before ++ events)).1 ≢ waiting
  consume_from-ends retry headers before events s h =
      not_waiting _ (later-ends retry headers before events s h)
