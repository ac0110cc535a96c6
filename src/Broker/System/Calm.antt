-- ===== src/Broker/System/Calm.antt =====
-- What every step of the loops, every start and every cancellation keeps.
use pulsar_beam.Prelude.{true, some, ok, map, List, ◌∷◌, ◌++◌, ◌≡◌, refl, All-without, All-with}
use pulsar_beam.Broker.Webhook.{Start}
use pulsar_beam.Broker.Cancel.{Beam}
use pulsar_beam.Driver.{Consumer, Cluster, Driver}
use pulsar_beam.Broker.System.{
  Loop, System, system, State, state, IsAway, notify, new_loop, subscribe, close_loop, give_up,
  Step, Reach, start, cancel, connect, fail, enter_channel, receive, reconnect, stop, exceed, here,
  next,
}
use pulsar_beam.Broker.System.Ownership.{IsOwned}
use pulsar_beam.Broker.System.Asking.{IsAsked, subscribe-IsAsked}
use pulsar_beam.Broker.System.Cancelling.{
  IsRunning, closing-IsRunning, cancel-IsStep, cancel-IsRunning, exceed-IsRunning, gives_up,
}
use pulsar_beam.Broker.System.Connecting.{
  begin-IsRunning, connect-IsRunning, enter-IsRunning, reconnect-IsRunning,
}
use pulsar_beam.Broker.System.Entering.{
  IsCalm, asked-IsReady, begin-IsReady, reconnect-IsReady, cancelled-IsReady,
}
use pulsar_beam.Broker.Consume.{enter}

pub placed :
    (s : System) (ls : List Loop)
    → s.loops ≡ ls
    → IsRunning s
    → IsRunning (system s.beam s.pending ls)
placed s ls place run =
    let owned = run.owned in
    record { backed = run.backed; made = run.made; owned = rw place at owned }

stop-IsRunning :
    (b : Beam) (ps : List Start) (ls ms : List Loop) (l : Loop)
    → l.signalled ≡ true
    → IsRunning (system b ps (ls ++ (l ∷ ms)))
    → IsRunning (system (close_loop l b) ps (ls ++ ms))
stop-IsRunning b ps ls ms l signal run =
    let (own, others) = All-without (IsOwned b.registry) ls ms l run.owned in
    closing-IsRunning b ps (ls ++ ms) l
      (record { backed = run.backed; made = run.made; owned = others }) own (own.quiet signal)

receive-IsRunning :
    (b : Beam) (ps : List Start) (ls ms : List Loop) (l : Loop)
    → IsRunning (system b ps (ls ++ (l ∷ ms)))
    → IsRunning (system b ps (ls ++ (record l { retry = 0 } ∷ ms)))
receive-IsRunning b ps ls ms l run =
    let (own, others) = All-without (IsOwned b.registry) ls ms l run.owned in
    record {
      backed = run.backed;
      made = run.made;
      owned =
          All-with (IsOwned b.registry) ls ms (record l { retry = 0 })
            (record { names = own.names; quiet = own.quiet; made = own.made }) others;
    }

connected-IsCalm :
    (cluster : Cluster) (s : State) (ps qs : List Start) (st : Start) (consumer : Consumer)
    (d : Driver)
    → subscribe cluster st s.system.beam.driver ≡ (ok consumer, d)
    → IsCalm s
    → IsCalm (
        state
          (system (record s.system.beam { driver = d }) (ps ++ qs) s.system.loops)
          (st ∷ s.entering))
connected-IsCalm cluster s ps qs st consumer d e calm =
    let b = s.system.beam in
    let asked : IsAsked st.subscription_key b.driver (ok consumer, d) =
      rw e at (subscribe-IsAsked cluster st b.driver) in
    record {
      running =
          connect-IsRunning cluster st b s.system.pending (ps ++ qs) s.system.loops consumer d e
            (placed s.system s.system.loops refl calm.running);
      ready = (
        (consumer, asked.made consumer d refl),
        asked-IsReady st.subscription_key b.driver (ok consumer, d) s.entering asked calm.ready,
      );
    }

entered-IsCalm :
    (s : State) (es fs : List Start) (st : Start)
    → s.entering ≡ es ++ (st ∷ fs)
    → IsCalm s
    → IsCalm (
        state
          (system
            (record s.system.beam { registry = enter st.subscription_key s.system.beam.registry })
            s.system.pending
            (new_loop st s.system.beam.registry.next ∷ s.system.loops))
          (es ++ fs))
entered-IsCalm s es fs st place calm =
    let all_ready = calm.ready in
    let ((consumer, sub), others) = All-without _ es fs st (rw place at all_ready) in
    record {
      running =
          enter-IsRunning st s.system.beam s.system.pending s.system.loops consumer sub
            (placed s.system s.system.loops refl calm.running);
      ready = others;
    }

exceeded-IsCalm :
    (s : State) (ls ms : List Loop) (l : Loop) (b : Beam)
    → s.system.loops ≡ ls ++ (l ∷ ms)
    → give_up l s.system.beam ≡ some b
    → IsAway l.start.subscription_key s.entering
    → IsCalm s
    → IsCalm (
        state
          (system b s.system.pending (map (notify s.system.beam.registry b.registry) (ls ++ ms)))
          s.entering)
exceeded-IsCalm s ls ms l b place e away calm =
    let (middle, same, one) = gives_up s.system.beam l b calm.running.backed e in
    record {
      running = exceed-IsRunning s.system ls ms l b place e calm.running;
      ready = rw (← same) (
          cancelled-IsReady l.start.subscription_key s.system.beam middle s.entering one away
            calm.ready);
    }

pub step-IsCalm : (cluster : Cluster) (s t : State) → IsCalm s → Step cluster s t → IsCalm t
step-IsCalm cluster s t calm (start st missing q) =
    let run = calm.running in
    rw q (record {
      running = record { backed = run.backed; made = run.made; owned = run.owned };
      ready = calm.ready;
    })
step-IsCalm cluster s t calm (cancel key b e away q) =
    let one = cancel-IsStep key s.system.beam b calm.running.backed e in
    rw q (record {
      running =
          cancel-IsRunning key s.system.beam b s.system.pending s.system.loops one
            (placed s.system s.system.loops refl calm.running);
      ready = cancelled-IsReady key s.system.beam b s.entering one away calm.ready;
    })
step-IsCalm cluster s t calm (connect ps qs st consumer d type position place ty pos e q) =
    rw q (connected-IsCalm cluster s ps qs st consumer d e calm)
step-IsCalm cluster s t calm (fail ps qs st place e q) = rw q (record {
  running = rw e at (
      begin-IsRunning cluster st s.system.beam s.system.pending (ps ++ qs) s.system.loops
        (placed s.system s.system.loops refl calm.running));
  ready = begin-IsReady cluster st s.system.beam s.entering calm.ready;
})
step-IsCalm cluster s t calm (enter_channel es fs st place q) =
    rw q (entered-IsCalm s es fs st place calm)
step-IsCalm cluster s t calm (receive ls ms l place low q) = rw q (record {
  running =
      receive-IsRunning s.system.beam s.system.pending ls ms l
        (placed s.system _ place calm.running);
  ready = calm.ready;
})
step-IsCalm cluster s t calm (reconnect ls ms l place low q) = rw q (record {
  running =
      reconnect-IsRunning cluster l s.system.beam s.system.pending ls ms
        (placed s.system _ place calm.running);
  ready = reconnect-IsReady cluster l s.system.beam s.entering calm.ready;
})
step-IsCalm cluster s t calm (stop ls ms l place low signal q) = rw q (record {
  running =
      stop-IsRunning s.system.beam s.system.pending ls ms l signal
        (placed s.system _ place calm.running);
  ready = calm.ready;
})
step-IsCalm cluster s t calm (exceed ls ms l b place high e away q) =
    rw q (exceeded-IsCalm s ls ms l b place e away calm)

pub Reach-IsCalm : (cluster : Cluster) (s t : State) → IsCalm s → Reach cluster s t → IsCalm t
Reach-IsCalm cluster s t calm here = calm
Reach-IsCalm cluster s t calm (next {t = u} way last) =
    step-IsCalm cluster u t (Reach-IsCalm cluster s u calm way) last
