-- ===== src/Route/Receive/Pool/Buffers.antt =====
-- When a message is sent with the bytes of its own request.
use pulsar_beam.Prelude.{
  ℕ, zero, suc, true, false, List, [], ◌∷◌, ◌++◌, length, take, nat_eq, ◌≡◌, ◌≤◌, refl, ◌∙◌, ap,
  arith, All, All-without,
}
use pulsar_beam.Route.Receive.Pool.{
  Message, Kind, sync, async, refused, Pool, drop, overwrite, put, message_of, slice, serve,
  send_pending, Step, Reach, serves, sends, settles, here, next,
}

nat_eq_refl : (n : ℕ) → nat_eq n n ≡ true
nat_eq_refl n = ground arith

module _ {A : Type 0} where
  take-append : (n : ℕ) (xs ys : List A) → n ≤ length xs → take n (xs ++ ys) ≡ take n xs
  take-append zero xs ys h = refl
  take-append (suc n) [] ys h = absurd (omega (arith, h))
  take-append (suc n) (x ∷ xs) ys h = ap (λ zs. x ∷ zs) (take-append n xs ys (omega (arith, h)))

  take-length : (xs : List A) → take (length xs) xs ≡ xs
  take-length [] = refl
  take-length (x ∷ xs) = ap (λ zs. x ∷ zs) (take-length xs)

  -- What is sent is what the request held.
  abbrev pub IsOwn : Message A × List A → Type 0
  IsOwn (m, bytes) = bytes ≡ m.payload

  -- No message of the worker is pending.
  abbrev pub IsIdle : Pool A → ℕ → Type 0
  IsIdle s worker = All (λ m. nat_eq worker m.worker ≡ false) s.pending

  abbrev pub IsAnything : Pool A → ℕ → Type 0
  IsAnything s worker = Unit

  pub record IsIntact (s : Pool A) : Type 0 where
    pub waiting : All (λ m. slice s.buffers m ≡ m.payload) s.pending
    pub gone : All IsOwn s.sent

  -- The first bytes of a buffer that a longer request has been read into.
  take-overwrite :
      (n : ℕ) (payload buffer : List A)
      → n ≤ length payload
      → take n (overwrite payload buffer) ≡ take n payload
  take-overwrite n payload buffer = take-append n payload (drop (length payload) buffer)

  read_back :
      (worker : ℕ) (payload : List A) (buffers : ℕ → List A)
      → slice (put worker (overwrite payload (buffers worker)) buffers) (message_of worker payload)
        ≡ payload
  read_back worker payload buffers =
      rw (nat_eq_refl worker) (
        take-overwrite (length payload) payload (buffers worker) (omega arith)
        ∙ take-length payload)

  -- A worker without pending messages spoils none.
  spared :
      (worker : ℕ) (buffer : List A) (buffers : ℕ → List A) (ms : List (Message A))
      → All (λ m. nat_eq worker m.worker ≡ false) ms
      → All (λ m. slice buffers m ≡ m.payload) ms
      → All (λ m. slice (put worker buffer buffers) m ≡ m.payload) ms
  spared worker buffer buffers [] _ _ = tt
  spared worker buffer buffers (m ∷ ms) (other, idle) (own, rest) =
      (rw other own, spared worker buffer buffers ms idle rest)

  serve-IsIntact :
      (kind : Kind) (worker : ℕ) (payload : List A) (s : Pool A)
      → IsIdle s worker
      → IsIntact s
      → IsIntact (serve kind worker payload s)
  unfolding serve
  serve-IsIntact sync worker payload s idle i = record {
    waiting = spared worker _ s.buffers s.pending idle i.waiting;
    gone = (read_back worker payload s.buffers, i.gone);
  }
  serve-IsIntact async worker payload s idle i = record {
    waiting =
        (read_back worker payload s.buffers, spared worker _ s.buffers s.pending idle i.waiting);
    gone = i.gone;
  }
  serve-IsIntact refused worker payload s idle i = record {
    waiting = spared worker _ s.buffers s.pending idle i.waiting;
    gone = i.gone;
  }

  split_waiting :
      (s : Pool A) (ps qs : List (Message A)) (m : Message A)
      → s.pending ≡ ps ++ (m ∷ qs)
      → IsIntact s
      → (slice s.buffers m ≡ m.payload) × All (λ k. slice s.buffers k ≡ k.payload) (ps ++ qs)
  split_waiting s ps qs m place i =
      let waiting = i.waiting in
      All-without (λ k. slice s.buffers k ≡ k.payload) ps qs m (rw place at waiting)

  step-IsIntact : (size : ℕ) (s t : Pool A) → IsIntact s → Step IsIdle size s t → IsIntact t
  unfolding send_pending
  step-IsIntact size s t i (serves kind worker payload w idle e) =
      rw e (serve-IsIntact kind worker payload s idle i)
  step-IsIntact size s t i (sends ps qs m place e) =
      rw e (record { waiting = i.waiting; gone = ((split_waiting s ps qs m place i).0, i.gone) })
  step-IsIntact size s t i (settles ps qs m place e) =
      rw e (record { waiting = (split_waiting s ps qs m place i).1; gone = i.gone })

  -- From a pool whose pending and sent messages are those of their requests, if no worker takes a
  -- request while a message of its own is pending, then in every state that is reached whatever was
  -- sent, and however often, is what its request held.
  pub Reach-IsIntact : (size : ℕ) (s t : Pool A) → IsIntact s → Reach IsIdle size s t → IsIntact t
  Reach-IsIntact size s t i here = i
  Reach-IsIntact size s t i (next {t = u} way last) =
      step-IsIntact size u t (Reach-IsIntact size s u i way) last

  spoiled :
      (payload : List A) (buffers : ℕ → List A) (m : Message A)
      → m.size ≤ length payload
      → slice (put m.worker (overwrite payload (buffers m.worker)) buffers) m ≡ take m.size payload
  spoiled payload buffers m long =
      rw (nat_eq_refl m.worker) (take-overwrite m.size payload (buffers m.worker) long)

  -- A message that is pending while its worker reads a request that is as long or longer is sent with the
  -- bytes of that request, whatever that request comes to.
  pub send_pending-spoiled :
      (kind : Kind) (payload : List A) (s : Pool A) (m : Message A)
      → m.size ≤ length payload
      → (send_pending m (serve kind m.worker payload s)).sent
        ≡ ((m, take m.size payload) ∷ (serve kind m.worker payload s).sent)
  unfolding send_pending serve
  send_pending-spoiled sync payload s m long =
      ap (λ bytes. (m, bytes) ∷ (serve sync m.worker payload s).sent)
        (spoiled payload s.buffers m long)
  send_pending-spoiled async payload s m long =
      ap (λ bytes. (m, bytes) ∷ (serve async m.worker payload s).sent)
        (spoiled payload s.buffers m long)
  send_pending-spoiled refused payload s m long =
      ap (λ bytes. (m, bytes) ∷ (serve refused m.worker payload s).sent)
        (spoiled payload s.buffers m long)
