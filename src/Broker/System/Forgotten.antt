-- ===== src/Broker/System/Forgotten.antt =====
-- Channels that are entered under no key, and what the steps do to them.
use pulsar_beam.Prelude.{
  ℕ, suc, String, Bool, false, ◌&&◌, ◌||◌, Option, none, some, List, ◌∷◌, ◌++◌, map, Result, ok,
  err, ◌<◌, ◌≡◌, ◌≢◌, refl, ap, arith, nat_eq, All, All-without, All-with, All-map, Bool-cases, inl,
  inr,
}
use pulsar_beam.Prelude.Maps.{lookup}
use pulsar_beam.Model.Topic.{
  get_subscription_type, get_initial_position, SubscriptionType, InitialPosition,
}
use pulsar_beam.Broker.Webhook.{Registry, Start}
use pulsar_beam.Broker.Consume.{enter, close_channel}
use pulsar_beam.Broker.Cancel.{Beam}
use pulsar_beam.Driver.{Consumer, Cluster, Driver}
use pulsar_beam.Broker.System.{
  Loop, System, system, notify, same_channel, close_loop, to_list, subscribe, begun, parsed,
  begin_loop, connected,
}
use pulsar_beam.Broker.System.Ownership.{IsShrunk, older, entered_next}

-- A channel that has been made and is entered under no key.
pub record IsForgotten (c : ℕ) (reg : Registry) : Type 0 where
  pub never : (key : String) → lookup key reg.webhooks ≢ some c
  pub older : c < reg.next

-- No loop finds a signal in the channel.
abbrev pub IsUnheard : ℕ → List Loop → Type 0
IsUnheard c ls = All (λ l. l.channel ≡ c → l.signalled ≡ false) ls

shrunk-IsForgotten :
    (c : ℕ) (reg reg' : Registry) → IsShrunk reg reg' → IsForgotten c reg → IsForgotten c reg'
shrunk-IsForgotten c reg reg' s f = record {
  never = λ key h. f.never key (s.left key c h);
  older = rw s.same_next f.older;
}

pub enter-IsForgotten :
    (key : String) (c : ℕ) (reg : Registry) → IsForgotten c reg → IsForgotten c (enter key reg)
enter-IsForgotten key c reg f = record {
  never = λ k h. f.never k (older key k c reg f.older h);
  older = rw (entered_next key reg) (ground (arith, f.older));
}

close-IsForgotten :
    (d c : ℕ) (reg : Registry) → IsForgotten c reg → IsForgotten c (close_channel d reg)
close-IsForgotten d c reg f = record { never = f.never; older = f.older }

unheard : (a b x : Bool) → a ≡ false → b ≡ false → (a || (b && x)) ≡ false
unheard a b x h k = ground arith

not_same : (o : Option ℕ) (c : ℕ) → o ≢ some c → same_channel o c ≡ false
not_same none c n = refl
not_same (some d) c n = elim (Bool-cases (nat_eq d c)) [
  | inl same ↦ let e : d ≡ c = ground arith in absurd (n (ap some e))
  | inr differs ↦ differs
]

notify-IsUnheard :
    (c : ℕ) (before after : Registry) (ls : List Loop)
    → IsForgotten c before
    → IsUnheard c ls
    → IsUnheard c (map (notify before after) ls)
unfolding notify
notify-IsUnheard c before after ls f =
    All-map (λ l. l.channel ≡ c → l.signalled ≡ false) (λ l. l.channel ≡ c → l.signalled ≡ false)
      (notify before after) ls
      (λ l h same. unheard l.signalled _ _ (h same) (
        not_same (lookup l.start.subscription_key before.webhooks) l.channel
          (rw same (f.never l.start.subscription_key))))

-- What stays of a forgotten channel.
pub record IsLost (c : ℕ) (s : System) : Type 0 where
  pub forgotten : IsForgotten c s.beam.registry
  pub silent : IsUnheard c s.loops

module _ (c : ℕ) where
  pub cancelled-IsLost :
      (b b' : Beam) (ps qs : List Start) (ls : List Loop)
      → IsShrunk b.registry b'.registry
      → IsLost c (system b ps ls)
      → IsLost c (system b' qs (map (notify b.registry b'.registry) ls))
  cancelled-IsLost b b' ps qs ls shrunk lost = record {
    forgotten = shrunk-IsForgotten c b.registry b'.registry shrunk lost.forgotten;
    silent = notify-IsUnheard c b.registry b'.registry ls lost.forgotten lost.silent;
  }

  begun-IsLost :
      (st : Start) (b : Beam) (ps qs : List Start) (ls : List Loop) (x : Result Consumer × Driver)
      → IsLost c (system b ps ls)
      → IsLost c (system (begun st b x).1 qs (to_list (begun st b x).0 ++ ls))
  unfolding begun
  begun-IsLost st b ps qs ls (ok consumer, d) lost = record {
    forgotten = enter-IsForgotten st.subscription_key c b.registry lost.forgotten;
    silent = (λ _. refl, lost.silent);
  }
  begun-IsLost st b ps qs ls (err e, d) lost = record {
    forgotten = lost.forgotten;
    silent = lost.silent;
  }

  parsed-IsLost :
      (cluster : Cluster) (st : Start) (b : Beam) (ps qs : List Start) (ls : List Loop)
      (type : Result SubscriptionType) (position : Result InitialPosition)
      → IsLost c (system b ps ls)
      → IsLost c (
          system
            (parsed cluster st b type position).1
            qs
            (to_list (parsed cluster st b type position).0 ++ ls))
  unfolding parsed
  parsed-IsLost cluster st b ps qs ls (err e) position lost = record {
    forgotten = lost.forgotten;
    silent = lost.silent;
  }
  parsed-IsLost cluster st b ps qs ls (ok type) (err e) lost = record {
    forgotten = lost.forgotten;
    silent = lost.silent;
  }
  parsed-IsLost cluster st b ps qs ls (ok type) (ok position) lost =
      begun-IsLost st b ps qs ls (subscribe cluster st b.driver) lost

  pub begin-IsLost :
      (cluster : Cluster) (st : Start) (b : Beam) (ps qs : List Start) (ls : List Loop)
      → IsLost c (system b ps ls)
      → IsLost c (system (begin_loop cluster st b).1 qs (to_list (begin_loop cluster st b).0 ++ ls))
  unfolding begin_loop
  begin-IsLost cluster st b ps qs ls =
      parsed-IsLost cluster st b ps qs ls (get_subscription_type st.webhook.subscription_type)
        (get_initial_position st.webhook.initial_position)

  -- The member between the two lists, and the others.
  abbrev Silent : Loop → Type 0
  Silent l = l.channel ≡ c → l.signalled ≡ false

  pub left-IsLost :
      (b : Beam) (ps : List Start) (ls ms : List Loop) (l : Loop)
      → IsLost c (system b ps (ls ++ (l ∷ ms)))
      → IsLost c (system b ps (ls ++ ms))
  left-IsLost b ps ls ms l lost = record {
    forgotten = lost.forgotten;
    silent = (All-without Silent ls ms l lost.silent).1;
  }

  pub retried-IsLost :
      (b : Beam) (ps : List Start) (ls ms : List Loop) (l : Loop) (n : ℕ)
      → IsLost c (system b ps (ls ++ (l ∷ ms)))
      → IsLost c (system b ps (ls ++ (record l { retry = n } ∷ ms)))
  retried-IsLost b ps ls ms l n lost =
      let (own, others) = All-without Silent ls ms l lost.silent in
      record {
        forgotten = lost.forgotten;
        silent = All-with Silent ls ms (record l { retry = n }) own others;
      }

  pub closed-IsLost :
      (b : Beam) (ps : List Start) (ls : List Loop) (l : Loop)
      → IsLost c (system b ps ls)
      → IsLost c (system (close_loop l b) ps ls)
  closed-IsLost b ps ls l lost = record {
    forgotten = close-IsForgotten l.channel c b.registry lost.forgotten;
    silent = lost.silent;
  }

  pub connected-IsLost :
      (l : Loop) (b : Beam) (ps : List Start) (ls ms : List Loop) (x : Result Consumer × Driver)
      → IsLost c (system b ps (ls ++ (l ∷ ms)))
      → IsLost c (system (connected l b x).1 ps (ls ++ (to_list (connected l b x).0 ++ ms)))
  connected-IsLost l b ps ls ms (ok consumer, d) lost =
      let kept = retried-IsLost b ps ls ms l (suc l.retry) lost in
      record { forgotten = kept.forgotten; silent = kept.silent }
  connected-IsLost l b ps ls ms (err e, d) lost =
      let kept = closed-IsLost b ps (ls ++ ms) l (left-IsLost b ps ls ms l lost) in
      record { forgotten = kept.forgotten; silent = kept.silent }
