-- ===== src/Broker/System/Ownership.antt =====
-- What holds of the loops that run, and what keeps it: which channels a loop may be found under.
use pulsar_beam.Prelude.{
  ℕ, suc, String, Bool, true, not, ◌&&◌, ◌||◌, Option, some, ◌<◌, ◌≡◌, ◌≢◌, refl, arith, ◌==◌,
  eq_iff, if◌then◌else◌, Bool-cases, inl, inr,
}
use pulsar_beam.Prelude.Maps.{lookup, lookup-insert}
use pulsar_beam.Broker.Webhook.{Registry, Start, is_closed, write_webhook}
use pulsar_beam.Broker.Webhook.Runs.{IsOpen}
use pulsar_beam.Broker.Consume.{enter, close_channel}
use pulsar_beam.Broker.System.{Loop, new_loop, notify, same_channel}

-- A loop's channel is entered under the loop's key alone, and no longer when it holds a signal.
pub record IsOwned (reg : Registry) (l : Loop) : Type 0 where
  pub names :
      (key : String) → lookup key reg.webhooks ≡ some l.channel → key ≡ l.start.subscription_key
  pub quiet : l.signalled ≡ true → lookup l.start.subscription_key reg.webhooks ≢ some l.channel
  pub made : l.channel < reg.next

-- The channels that are entered or closed have been made.
pub record IsMade (reg : Registry) : Type 0 where
  pub entered : (key : String) (c : ℕ) → lookup key reg.webhooks ≡ some c → c < reg.next
  pub ended : (c : ℕ) → is_closed reg.closed c ≡ true → c < reg.next

-- Entries are taken out, and nothing else is done.
pub record IsShrunk (reg reg' : Registry) : Type 0 where
  pub left :
      (key : String) (c : ℕ) → lookup key reg'.webhooks ≡ some c → lookup key reg.webhooks ≡ some c
  pub same_closed : reg'.closed ≡ reg.closed
  pub same_next : reg'.next ≡ reg.next

pub shrunk-IsMade : (reg reg' : Registry) → IsShrunk reg reg' → IsMade reg → IsMade reg'
shrunk-IsMade reg reg' s m = record {
  entered = λ key c h. rw s.same_next (m.entered key c (s.left key c h));
  ended = λ c h. rw s.same_next (m.ended c (rw (← s.same_closed) h));
}

same_channel-some : (o : Option ℕ) (c : ℕ) → o ≡ some c → same_channel o c ≡ true
same_channel-some o c h = rw h (ground arith)

notified : (a b c : Bool) → (a || (b && not c)) ≡ true → c ≡ true → a ≡ true
notified a b c h k = ground arith

pub shrunk-IsOwned :
    (reg reg' : Registry) (l : Loop)
    → IsShrunk reg reg'
    → IsOwned reg l
    → IsOwned reg' (notify reg reg' l)
unfolding notify
shrunk-IsOwned reg reg' l s own = record {
  names = λ key h. own.names key (s.left key l.channel h);
  quiet = λ h k.
      own.quiet
        (notified l.signalled _ _ h
          (same_channel-some (lookup l.start.subscription_key reg'.webhooks) l.channel k))
        (s.left l.start.subscription_key l.channel k);
  made = rw s.same_next own.made;
}

pub close-IsOwned :
    (reg : Registry) (c : ℕ) (l : Loop) → IsOwned reg l → IsOwned (close_channel c reg) l
close-IsOwned reg c l own = record { names = own.names; quiet = own.quiet; made = own.made }

pub close-IsMade :
    (reg : Registry) (c : ℕ) → c < reg.next → IsMade reg → IsMade (close_channel c reg)
close-IsMade reg c below m = record {
  entered = m.entered;
  ended = λ d h. ground (arith, below, m.ended d);
}

pub lookup-enter :
    (key other : String) (reg : Registry)
    → lookup other (enter key reg).webhooks
      ≡ (if key == other then some reg.next else lookup other reg.webhooks)
unfolding enter write_webhook
lookup-enter key other reg = lookup-insert key other reg.next reg.webhooks

pub entered_next : (key : String) (reg : Registry) → (enter key reg).next ≡ suc reg.next
unfolding enter write_webhook
entered_next key reg = refl

entered_closed : (key : String) (reg : Registry) → (enter key reg).closed ≡ reg.closed
unfolding enter write_webhook
entered_closed key reg = refl

pub enter-IsMade : (key : String) (reg : Registry) → IsMade reg → IsMade (enter key reg)
enter-IsMade key reg m = record {
  entered = λ k c h. ground (arith, lookup-enter key k reg, m.entered k c, entered_next key reg);
  ended = λ c h.
      rw (entered_next key reg) (ground (arith, m.ended c (rw (← entered_closed key reg) h)));
}

-- An older channel is found where it was found before.
pub older :
    (key k : String) (c : ℕ) (reg : Registry)
    → c < reg.next
    → lookup k (enter key reg).webhooks ≡ some c
    → lookup k reg.webhooks ≡ some c
older key k c reg below h = ground (arith, lookup-enter key k reg)

pub enter-IsOwned :
    (key : String) (reg : Registry) (l : Loop) → IsOwned reg l → IsOwned (enter key reg) l
enter-IsOwned key reg l own = record {
  names = λ k h. own.names k (older key k l.channel reg own.made h);
  quiet = λ h k. own.quiet h (older key l.start.subscription_key l.channel reg own.made k);
  made = rw (entered_next key reg) (ground (arith, own.made));
}

-- A new channel is open, since it has just been made.
pub enter-IsOpen :
    (key : String) (reg : Registry) → IsMade reg → IsOpen reg → IsOpen (enter key reg)
enter-IsOpen key reg m opened = record {
  is_open = λ k c h. rw (entered_closed key reg) (elim (Bool-cases (is_closed reg.closed c)) [
    | inl ended ↦ cc (opened.is_open k c (older key k c reg (m.ended c ended) h))
    | inr still ↦ still
  ]);
}

pub new-IsOwned :
    (st : Start) (reg : Registry)
    → IsMade reg
    → IsOwned (enter st.subscription_key reg) (new_loop st reg.next)
new-IsOwned st reg m = record {
  names = λ key h. ground (
    arith,
    lookup-enter st.subscription_key key reg,
    m.entered key reg.next,
    eq_iff st.subscription_key key,
  );
  quiet = λ h. cc;
  made = rw (entered_next st.subscription_key reg) (ground arith);
}
