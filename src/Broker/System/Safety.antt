-- ===== src/Broker/System/Safety.antt =====
-- What holds in every state that the loops and the timer can get to.
use pulsar_beam.Prelude.{suc, String, some, List, [], ◌≡◌, All}
use pulsar_beam.Prelude.Maps.{lookup}
use pulsar_beam.Model.Topic.{TopicConfig}
use pulsar_beam.Broker.Cancel.{Beam, state_of, cancel_consumer, run_beam}
use pulsar_beam.Broker.Cancel.Closing.{IsServed}
use pulsar_beam.Driver.{Cluster}
use pulsar_beam.Broker.System.{System, State, give_up, reconnect_loop}
use pulsar_beam.Broker.System.Entering.{IsCalm}

-- What the code relies on.
pub record IsSafe (cluster : Cluster) (s : System) : Type 0 where
  pub ticks :
      (cfgs : List TopicConfig)
      → (b : Beam) × ((run_beam cfgs s.beam).1 ≡ some b) × IsServed cfgs s.beam b
  pub cancels : (key : String) → (b : Beam) × (state_of (cancel_consumer key s.beam) ≡ some b)
  pub give_ups : All (λ l. (b : Beam) × (give_up l s.beam ≡ some b)) s.loops
  pub holds_on :
      All
        (λ l.
          lookup l.start.subscription_key s.beam.registry.webhooks ≡ some l.channel
          → reconnect_loop cluster l s.beam ≡ (some (record l { retry = suc l.retry }), s.beam))
        s.loops

-- Nothing is entered or about to be entered, and no loop runs. The caches of the driver may hold
-- anything.
pub record IsStart (s : State) : Type 0 where
  pub nothing : s.system.beam.registry.webhooks ≡ []
  pub none_closed : s.system.beam.registry.closed ≡ []
  pub no_loops : s.system.loops ≡ []
  pub none_entering : s.entering ≡ []

pub start-IsCalm : (s : State) → IsStart s → IsCalm s
unfolding lookup
start-IsCalm s begins = record {
  running = record {
    backed = record {
      open_channels = record { is_open = λ key c h. cc (rw (begins.nothing) at h) };
      consumer = λ key c h. absurd (cc (rw (begins.nothing) at h));
    };
    made = record {
      entered = λ key c h. cc (rw (begins.nothing) at h);
      ended = λ c h. cc (rw (begins.none_closed) at h);
    };
    owned = rw begins.no_loops tt;
  };
  ready = rw begins.none_entering tt;
}
