-- ===== src/Middleware/Limits.antt =====
-- The limit on the requests that are served at once, over every interleaving of the requests.
use pulsar_beam.Prelude.{zero, ℕ, suc, ◌+◌, ◌≤◌, String, none, some, ◌≡◌, refl, arith}
use pulsar_beam.Middleware.{Sema, new_sema, acquire, release, limit_rate_enter, limit_rate_leave}

-- The semaphore, the requests that are being served, and those that were refused and have not
-- released yet.
pub record Rate : Type 0 where
  pub sema : Sema
  pub serving : ℕ
  pub refused : ℕ

abbrev pub rate : Sema → ℕ → ℕ → Rate
rate sema serving refused = record { sema = sema; serving = serving; refused = refused }

abbrev pub idle : ℕ → Rate
idle size = rate (new_sema size) 0 0

infix 20 ◌⟶◌ ◌⟶*◌
-- What one request does at a time.
pub data ◌⟶◌ : Rate → Rate → Type 0 where
  enter : {s s' : Sema} {n k : ℕ} → limit_rate_enter s ≡ (none, s') → rate s n k ⟶ rate s' (suc n) k
  refuse :
      {s s' : Sema} {n k : ℕ} {e : String}
      → limit_rate_enter s ≡ (some e, s')
      → rate s n k ⟶ rate s' n (suc k)
  leave : {s : Sema} {n k : ℕ} → rate s (suc n) k ⟶ rate (limit_rate_leave s) n k
  leave_refused : {s : Sema} {n k : ℕ} → rate s n (suc k) ⟶ rate (limit_rate_leave s) n k

pub data ◌⟶*◌ : Rate → Rate → Type 0 where
  stop : {a : Rate} → a ⟶* a
  step : {a b c : Rate} → a ⟶* b → b ⟶ c → a ⟶* c

pub record IsBounded (size : ℕ) (r : Rate) : Type 0 where
  pub same_size : r.sema.size ≡ size
  pub ch_bound : r.sema.ch ≤ size
  pub ch_served : r.sema.ch ≤ r.serving

step-IsBounded : (size : ℕ) (a b : Rate) → a ⟶ b → IsBounded size a → IsBounded size b
unfolding limit_rate_enter limit_rate_leave acquire release
step-IsBounded size _ _ (enter {s} e) h = record {
  same_size = ground arith;
  ch_bound = ground arith;
  ch_served = ground arith;
}
step-IsBounded size _ _ (refuse {s} e) h = record {
  same_size = ground arith;
  ch_bound = ground arith;
  ch_served = ground arith;
}
step-IsBounded size _ _ (leave {s}) h = record {
  same_size = ground arith;
  ch_bound = ground arith;
  ch_served = ground arith;
}
step-IsBounded size _ _ (leave_refused {s}) h = record {
  same_size = ground arith;
  ch_bound = ground arith;
  ch_served = ground arith;
}

steps-IsBounded : (size : ℕ) (a b : Rate) → a ⟶* b → IsBounded size a → IsBounded size b
steps-IsBounded size a _ stop h = h
steps-IsBounded size a _ (step {b} {c} steps last) h =
    step-IsBounded size b c last (steps-IsBounded size a b steps h)

idle-IsBounded : (size : ℕ) → IsBounded size (idle size)
unfolding new_sema
idle-IsBounded size = record { same_size = refl; ch_bound = omega arith; ch_served = omega arith }

-- In whatever order requests come, are refused and leave, the semaphore holds no more than its size
-- and no more than there are requests being served.
pub limit_rate-IsBounded : (size : ℕ) (r : Rate) → idle size ⟶* r → IsBounded size r
limit_rate-IsBounded size r steps = steps-IsBounded size (idle size) r steps (idle-IsBounded size)

-- A refused request that releases makes room for one more.
fill : (size n : ℕ) → n ≤ size → idle size ⟶* rate (record { size = size; ch = n }) n 0
unfolding new_sema limit_rate_enter acquire
fill size zero h = stop
fill size (suc n) h = step (fill size n (omega arith)) (enter (ground arith))

abbrev full : ℕ → Sema
full size = record { size = size; ch = size }

overtake :
    (size m : ℕ) (start : Rate)
    → 1 ≤ size
    → start ⟶* rate (full size) m 0
    → start ⟶* rate (full size) (suc m) 0
unfolding limit_rate_enter limit_rate_leave acquire release
overtake size m start h steps =
    step
      (step (step steps (refuse {s' = full size} {e = "all semaphore buffer full"} (ground arith)))
        leave_refused)
      (enter (ground arith))

beyond : (size n : ℕ) → 1 ≤ size → (m : ℕ) × (m ≡ n + size) × (idle size ⟶* rate (full size) m 0)
beyond size zero h = (size, omega arith, fill size size (omega arith))
beyond size (suc n) h =
    let (m, e, steps) = beyond size n h in (suc m, omega arith, overtake size m (idle size) h steps)

-- If the limit is not 0, then for every number of requests beyond it there is an order of requests
-- in which that many are served at once: each refused request gives back a place that it never had.
pub limit_rate-unbounded :
    (size n : ℕ) → 1 ≤ size → (r : Rate) × (idle size ⟶* r) × (r.serving ≡ n + size)
limit_rate-unbounded size n h =
    let (m, e, steps) = beyond size n h in (rate (full size) m 0, steps, e)
