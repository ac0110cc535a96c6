-- ===== src/Broker/System/Orphans.antt =====
-- A loop whose channel another one has replaced is never told to stop.
use pulsar_beam.Prelude.{
  ℕ, String, false, some, List, ◌∷◌, ◌++◌, map, Result, ok, err, ◌≡◌, refl, ap, arith, eq_iff,
  All-without, All-imp, Bool-cases, inl, inr,
}
use pulsar_beam.Prelude.Maps.{lookup}
use pulsar_beam.Model.Topic.{
  get_subscription_type, get_initial_position, SubscriptionType, InitialPosition,
}
use pulsar_beam.Broker.Webhook.{Registry, Start}
use pulsar_beam.Broker.Consume.{enter}
use pulsar_beam.Broker.Cancel.{Beam}
use pulsar_beam.Broker.Cancel.Steps.{IsBacked}
use pulsar_beam.Driver.{Consumer, Cluster, Driver}
use pulsar_beam.Broker.System.{
  Loop, System, system, State, state, notify, new_loop, give_up, subscribe, begun, parsed,
  begin_loop, reconnect_loop, Step, Reach, start, cancel, connect, fail, enter_channel, receive,
  reconnect, stop, exceed, here, next,
}
use pulsar_beam.Broker.System.Ownership.{IsOwned, IsMade, lookup-enter, entered_next}
use pulsar_beam.Broker.System.Calm.{placed, step-IsCalm}
use pulsar_beam.Broker.System.Entering.{IsCalm, begin-IsReady}
use pulsar_beam.Broker.System.Connecting.{begin-IsRunning}
use pulsar_beam.Broker.System.Cancelling.{cancel-IsStep, step-IsShrunk, give_up-IsShrunk}
use pulsar_beam.Broker.System.Forgotten.{
  IsForgotten, enter-IsForgotten, IsLost, cancelled-IsLost, begin-IsLost, left-IsLost,
  retried-IsLost, closed-IsLost, connected-IsLost,
}

repl-IsLost :
    (c : ℕ) (s : System) (ls : List Loop)
    → s.loops ≡ ls
    → IsLost c s
    → IsLost c (system s.beam s.pending ls)
repl-IsLost c s ls place lost =
    let silent = lost.silent in record { forgotten = lost.forgotten; silent = rw place at silent }

exceeded-IsLost :
    (c : ℕ) (s : System) (ls ms : List Loop) (l : Loop) (b : Beam)
    → s.loops ≡ ls ++ (l ∷ ms)
    → give_up l s.beam ≡ some b
    → IsBacked s.beam
    → IsLost c s
    → IsLost c (system b s.pending (map (notify s.beam.registry b.registry) (ls ++ ms)))
unfolding notify
exceeded-IsLost c s ls ms l b place e back lost =
    let (middle, same, shrunk) = give_up-IsShrunk s.beam l b back e in
    rw (← same) (
      closed-IsLost c middle s.pending (map (notify s.beam.registry middle.registry) (ls ++ ms)) l (
        cancelled-IsLost c s.beam middle s.pending s.pending (ls ++ ms) shrunk
          (left-IsLost c s.beam s.pending ls ms l (repl-IsLost c s _ place lost))))

step-IsLost :
    (cluster : Cluster) (c : ℕ) (s t : State)
    → IsBacked s.system.beam
    → IsLost c s.system
    → Step cluster s t
    → IsLost c t.system
unfolding reconnect_loop
step-IsLost cluster c s t back lost (start st missing q) =
    rw q (record { forgotten = lost.forgotten; silent = lost.silent })
step-IsLost cluster c s t back lost (cancel key b e away q) =
    let one = cancel-IsStep key s.system.beam b back e in
    rw q (
      cancelled-IsLost c s.system.beam b s.system.pending s.system.pending s.system.loops
        (step-IsShrunk key s.system.beam b one) (repl-IsLost c s.system _ refl lost))
step-IsLost cluster c s t back lost (connect ps qs st consumer d type position place ty pos e q) =
    rw q (record { forgotten = lost.forgotten; silent = lost.silent })
step-IsLost cluster c s t back lost (fail ps qs st place e q) = rw q (
    rw e at (
      begin-IsLost c cluster st s.system.beam s.system.pending (ps ++ qs) s.system.loops
        (repl-IsLost c s.system _ refl lost)))
step-IsLost cluster c s t back lost (enter_channel es fs st place q) = rw q (record {
  forgotten = enter-IsForgotten st.subscription_key c s.system.beam.registry lost.forgotten;
  silent = (λ _. refl, lost.silent);
})
step-IsLost cluster c s t back lost (receive ls ms l place low q) = rw q (
    retried-IsLost c s.system.beam s.system.pending ls ms l 0 (repl-IsLost c s.system _ place lost))
step-IsLost cluster c s t back lost (reconnect ls ms l place low q) = rw q (
    connected-IsLost c l s.system.beam s.system.pending ls ms
      (subscribe cluster l.start s.system.beam.driver) (repl-IsLost c s.system _ place lost))
step-IsLost cluster c s t back lost (stop ls ms l place low signal q) = rw q (
    closed-IsLost c s.system.beam s.system.pending (ls ++ ms) l
      (left-IsLost c s.system.beam s.system.pending ls ms l (repl-IsLost c s.system _ place lost)))
step-IsLost cluster c s t back lost (exceed ls ms l b place high e away q) =
    rw q (exceeded-IsLost c s.system ls ms l b place e back lost)

Reach-IsLost :
    (cluster : Cluster) (c : ℕ) (s t : State)
    → IsCalm s
    → IsLost c s.system
    → Reach cluster s t
    → IsCalm t × IsLost c t.system
Reach-IsLost cluster c s t calm lost here = (calm, lost)
Reach-IsLost cluster c s t calm lost (next {t = u} way last) =
    let (calm', lost') = Reach-IsLost cluster c s u calm lost way in
    (step-IsCalm cluster u t calm' last, step-IsLost cluster c u t calm'.running.backed lost' last)

enter-Replaces :
    (key : String) (reg : Registry) (l : Loop)
    → IsMade reg
    → IsOwned reg l
    → lookup key reg.webhooks ≡ some l.channel
    → IsForgotten l.channel (enter key reg)
enter-Replaces key reg l made own found = record {
  never = λ other h.
      let same = own.names key found in
      ground (
        arith,
        lookup-enter key other reg,
        own.names other,
        made.entered key l.channel found,
        eq_iff key other,
      );
  older = rw (entered_next key reg) (ground (arith, own.made));
}

-- A loop with the channel of an entry has no signal yet.
entered_silent :
    (key : String) (reg : Registry) (c : ℕ) (m : Loop)
    → lookup key reg.webhooks ≡ some c
    → IsOwned reg m
    → m.channel ≡ c
    → m.signalled ≡ false
entered_silent key reg c m found own same = elim (Bool-cases m.signalled) [
  | inl signal ↦
      let here : lookup key reg.webhooks ≡ some m.channel = rw same found in
      let named = own.names key here in absurd (own.quiet signal (rw named at here))
  | inr silent ↦ silent
]

begun-eq-some :
    (st : Start) (b b' : Beam) (l : Loop) (x : Result Consumer × Driver)
    → begun st b x ≡ (some l, b')
    → (new_loop st b.registry.next ≡ l) × (enter st.subscription_key b.registry ≡ b'.registry)
unfolding begun
begun-eq-some st b b' l (ok consumer, d) h =
    let after : Beam = record { registry = enter st.subscription_key b.registry; driver = d } in
    let same : after ≡ b' = cc in (cc, ap (λ x. x.registry) same)
begun-eq-some st b b' l (err e, d) h = cc

parsed-eq-some :
    (cluster : Cluster) (st : Start) (b b' : Beam) (l : Loop) (type : Result SubscriptionType)
    (position : Result InitialPosition)
    → parsed cluster st b type position ≡ (some l, b')
    → (new_loop st b.registry.next ≡ l) × (enter st.subscription_key b.registry ≡ b'.registry)
unfolding parsed
parsed-eq-some cluster st b b' l (err e) position h = cc
parsed-eq-some cluster st b b' l (ok type) (err e) h = cc
parsed-eq-some cluster st b b' l (ok type) (ok position) h =
    begun-eq-some st b b' l (subscribe cluster st b.driver) h

begin_loop-eq-some :
    (cluster : Cluster) (st : Start) (b b' : Beam) (l : Loop)
    → begin_loop cluster st b ≡ (some l, b')
    → (new_loop st b.registry.next ≡ l) × (enter st.subscription_key b.registry ≡ b'.registry)
unfolding begin_loop
begin_loop-eq-some cluster st b b' l =
    parsed-eq-some cluster st b b' l (get_subscription_type st.webhook.subscription_type)
      (get_initial_position st.webhook.initial_position)

-- From a state with the invariant of the system, once a second loop has begun for a key under which a
-- first one has entered its channel, in every state that is reached from there that channel is entered
-- under no key and no loop on it holds a signal: no run ever tells the first loop to stop. No key is
-- cancelled on the way between the subscription of a loop with that key and the entry of its channel.
pub begin_loop-Orphans :
    (cluster : Cluster) (s t : State) (ps qs : List Start) (st : Start) (ls ms : List Loop)
    (l new : Loop) (b : Beam)
    → IsCalm s
    → s.system.pending ≡ ps ++ (st ∷ qs)
    → s.system.loops ≡ ls ++ (l ∷ ms)
    → lookup st.subscription_key s.system.beam.registry.webhooks ≡ some l.channel
    → begin_loop cluster st s.system.beam ≡ (some new, b)
    → Reach cluster (state (system b (ps ++ qs) (new ∷ s.system.loops)) s.entering) t
    → IsLost l.channel t.system
begin_loop-Orphans cluster s t ps qs st ls ms l new b calm waits place found begins way =
    let reg = s.system.beam.registry in
    let run = calm.running in
    let owned = run.owned in
    let own = (All-without (IsOwned reg) ls ms l (rw place at owned)).0 in
    let (is_new, entered) = begin_loop-eq-some cluster st s.system.beam b new begins in
    let forgotten = enter-Replaces st.subscription_key reg l run.made own found in
    let lost : IsLost l.channel (system b (ps ++ qs) (new ∷ s.system.loops)) = record {
      forgotten = rw (← entered) forgotten;
      silent = rw (← is_new) (
        λ _. refl,
        All-imp (IsOwned reg) (λ m. m.channel ≡ l.channel → m.signalled ≡ false) s.system.loops
            (λ m. entered_silent st.subscription_key reg l.channel m found) owned,
      );
    } in
    let begun_run =
      begin-IsRunning cluster st s.system.beam s.system.pending (ps ++ qs) s.system.loops
        (placed s.system s.system.loops refl run) in
    let begun-IsReady = begin-IsReady cluster st s.system.beam s.entering calm.ready in
    let begun_calm : IsCalm (state (system b (ps ++ qs) (new ∷ s.system.loops)) s.entering) =
      record { running = rw begins at begun_run; ready = rw begins at begun-IsReady } in
    (Reach-IsLost cluster l.channel _ t begun_calm lost way).1
