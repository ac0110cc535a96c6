-- ===== src/Route/Receive/Pool.antt =====
-- The worker pool of src/route/handlers.go: each worker has one buffer, into which it reads every
-- request that it serves, and the message that is sent is a slice of it.
pub mod Buffers
use pulsar_beam.Prelude.{
  ℕ, zero, suc, Bool, true, false, List, [], ◌∷◌, ◌++◌, length, take, nat_eq, ◌≡◌, ◌<◌,
  if◌then◌else◌,
}

-- `A` is the type of bytes. A message is what is passed to `SendToPulsar`: the first `size` bytes of
-- the worker's buffer, whatever they are when they are read. `payload` is what the request held.
pub record Message (A : Type 0) : Type 0 where
  pub worker : ℕ
  pub size : ℕ
  pub payload : List A

-- What a worker read from a request: a message that it waits for, one that it does not wait for, or
-- a request that it refuses.
pub data Kind : Type 0 where
  sync async refused : Kind

pub record Pool (A : Type 0) : Type 0 where
  pub buffers : ℕ → List A
  -- the messages that were handed over and that the library may still send
  pub pending : List (Message A)
  -- what was sent
  pub sent : List (Message A × List A)

module _ {A : Type 0} where
  abbrev pub drop : ℕ → List A → List A
  drop zero xs = xs
  drop (suc n) [] = []
  drop (suc n) (x ∷ xs) = drop n xs

  abbrev pub overwrite : List A → List A → List A
  overwrite payload buffer = payload ++ drop (length payload) buffer

  abbrev pub put : ℕ → List A → (ℕ → List A) → ℕ → List A
  put worker buffer buffers w = if nat_eq worker w then buffer else buffers w

  abbrev pub message_of : ℕ → List A → Message A
  message_of worker payload = record { worker = worker; size = length payload; payload = payload }

  -- `buffer[:bufferSize]`.
  abbrev pub slice : (ℕ → List A) → Message A → List A
  slice buffers m = take m.size (buffers m.worker)

  abbrev pub handled : Kind → Message A → (ℕ → List A) → Pool A → Pool A
  handled sync m buffers s = record s { buffers = buffers; sent = (m, slice buffers m) ∷ s.sent }
  handled async m buffers s = record s { buffers = buffers; pending = m ∷ s.pending }
  handled refused m buffers s = record s { buffers = buffers }

  -- A worker takes a request out of the channel.
  unfoldable pub serve : Kind → ℕ → List A → Pool A → Pool A
  serve kind worker payload s =
      handled kind (message_of worker payload)
        (put worker (overwrite payload (s.buffers worker)) s.buffers) s

  -- The library sends a pending message, for the first time or again.
  unfoldable pub send_pending : Message A → Pool A → Pool A
  send_pending m s = record s { sent = (m, slice s.buffers m) ∷ s.sent }

  -- `Allowed` says which workers may take a request in which state.
  pub data Step (Allowed : Pool A → ℕ → Type 0) (size : ℕ) (s t : Pool A) : Type 0 where
    serves :
        (kind : Kind) (worker : ℕ) (payload : List A)
        → worker < size
        → Allowed s worker
        → t ≡ serve kind worker payload s
        → Step Allowed size s t
    sends :
        (ps qs : List (Message A)) (m : Message A)
        → s.pending ≡ ps ++ (m ∷ qs)
        → t ≡ send_pending m s
        → Step Allowed size s t
    settles :
        (ps qs : List (Message A)) (m : Message A)
        → s.pending ≡ ps ++ (m ∷ qs)
        → t ≡ record s { pending = ps ++ qs }
        → Step Allowed size s t

  pub data Reach (Allowed : Pool A → ℕ → Type 0) (size : ℕ) (s : Pool A) : Pool A → Type 0 where
    here : Reach Allowed size s s
    next : {t u : Pool A} → Reach Allowed size s t → Step Allowed size t u → Reach Allowed size s u
