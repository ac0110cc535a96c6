-- ===== src/Broker/System/Connecting.antt =====
-- What the loops that begin and that ask for their consumer again keep.
use pulsar_beam.Prelude.{
  suc, List, ◌∷◌, ◌++◌, Result, ok, err, ◌≡◌, refl, All-without, All-with, All-imp,
}
use pulsar_beam.Model.Topic.{
  get_subscription_type, get_initial_position, SubscriptionType, InitialPosition,
}
use pulsar_beam.Broker.Webhook.{Start}
use pulsar_beam.Broker.Consume.{enter}
use pulsar_beam.Broker.Cancel.{Beam}
use pulsar_beam.Driver.{Consumer, Cluster, Driver}
use pulsar_beam.Driver.Consumers.Subscriptions.{IsSubscribed}
use pulsar_beam.Broker.System.{
  Loop, system, new_loop, to_list, subscribe, begun, parsed, begin_loop, connected, reconnect_loop,
}
use pulsar_beam.Broker.System.Ownership.{IsOwned, enter-IsMade, enter-IsOwned, new-IsOwned}
use pulsar_beam.Broker.System.Asking.{
  IsAsked, subscribe-IsAsked, asked-IsBacked, failed-missing, failed-IsBacked, enter-IsBacked,
}
use pulsar_beam.Broker.System.Cancelling.{IsRunning, closing-IsRunning}

begun-IsRunning :
    (st : Start) (b : Beam) (qs ps : List Start) (ls : List Loop) (x : Result Consumer × Driver)
    → IsAsked st.subscription_key b.driver x
    → IsRunning (system b qs ls)
    → IsRunning (system (begun st b x).1 ps (to_list (begun st b x).0 ++ ls))
unfolding begun
begun-IsRunning st b qs ps ls (ok consumer, d) asked run = record {
  backed =
      enter-IsBacked st.subscription_key (record b { driver = d }) consumer run.made
        (asked.made consumer d refl)
        (asked-IsBacked st.subscription_key b consumer d asked run.backed);
  made = enter-IsMade st.subscription_key b.registry run.made;
  owned = (
    new-IsOwned st b.registry run.made,
    All-imp (IsOwned b.registry) (IsOwned (enter st.subscription_key b.registry)) ls
        (enter-IsOwned st.subscription_key b.registry) run.owned,
  );
}
begun-IsRunning st b qs ps ls (err e, d) asked run = record {
  backed = failed-IsBacked st.subscription_key b e d asked run.backed;
  made = run.made;
  owned = run.owned;
}

connected-IsRunning :
    (l : Loop) (b : Beam) (ps : List Start) (ls ms : List Loop) (x : Result Consumer × Driver)
    → IsAsked l.start.subscription_key b.driver x
    → IsRunning (system b ps (ls ++ (l ∷ ms)))
    → IsRunning (system (connected l b x).1 ps (ls ++ (to_list (connected l b x).0 ++ ms)))
connected-IsRunning l b ps ls ms (ok consumer, d) asked run =
    let (own, others) = All-without (IsOwned b.registry) ls ms l run.owned in
    record {
      backed = asked-IsBacked l.start.subscription_key b consumer d asked run.backed;
      made = run.made;
      owned =
          All-with (IsOwned b.registry) ls ms (record l { retry = suc l.retry })
            (record { names = own.names; quiet = own.quiet; made = own.made }) others;
    }
connected-IsRunning l b ps ls ms (err e, d) asked run =
    let (own, others) = All-without (IsOwned b.registry) ls ms l run.owned in
    closing-IsRunning (record b { driver = d }) ps (ls ++ ms) l
      (record {
        backed = failed-IsBacked l.start.subscription_key b e d asked run.backed;
        made = run.made;
        owned = others;
      })
      own (λ h. cc (failed-missing l.start.subscription_key b e d asked run.backed))

parsed-IsRunning :
    (cluster : Cluster) (st : Start) (b : Beam) (qs ps : List Start) (ls : List Loop)
    (type : Result SubscriptionType) (position : Result InitialPosition)
    → IsRunning (system b qs ls)
    → IsRunning (
        system
          (parsed cluster st b type position).1
          ps
          (to_list (parsed cluster st b type position).0 ++ ls))
unfolding parsed
parsed-IsRunning cluster st b qs ps ls (err e) position run = record {
  backed = run.backed;
  made = run.made;
  owned = run.owned;
}
parsed-IsRunning cluster st b qs ps ls (ok type) (err e) run = record {
  backed = run.backed;
  made = run.made;
  owned = run.owned;
}
parsed-IsRunning cluster st b qs ps ls (ok type) (ok position) run =
    begun-IsRunning st b qs ps ls (subscribe cluster st b.driver)
      (subscribe-IsAsked cluster st b.driver) run

pub begin-IsRunning :
    (cluster : Cluster) (st : Start) (b : Beam) (qs ps : List Start) (ls : List Loop)
    → IsRunning (system b qs ls)
    → IsRunning (system (begin_loop cluster st b).1 ps (to_list (begin_loop cluster st b).0 ++ ls))
unfolding begin_loop
begin-IsRunning cluster st b qs ps ls =
    parsed-IsRunning cluster st b qs ps ls (get_subscription_type st.webhook.subscription_type)
      (get_initial_position st.webhook.initial_position)

pub reconnect-IsRunning :
    (cluster : Cluster) (l : Loop) (b : Beam) (ps : List Start) (ls ms : List Loop)
    → IsRunning (system b ps (ls ++ (l ∷ ms)))
    → IsRunning (
        system
          (reconnect_loop cluster l b).1
          ps
          (ls ++ (to_list (reconnect_loop cluster l b).0 ++ ms)))
unfolding reconnect_loop
reconnect-IsRunning cluster l b ps ls ms =
    connected-IsRunning l b ps ls ms (subscribe cluster l.start b.driver)
      (subscribe-IsAsked cluster l.start b.driver)

pub connect-IsRunning :
    (cluster : Cluster) (st : Start) (b : Beam) (qs ps : List Start) (ls : List Loop)
    (consumer : Consumer) (d : Driver)
    → subscribe cluster st b.driver ≡ (ok consumer, d)
    → IsRunning (system b qs ls)
    → IsRunning (system (record b { driver = d }) ps ls)
connect-IsRunning cluster st b qs ps ls consumer d e run = record {
  backed =
      asked-IsBacked st.subscription_key b consumer d
        (rw e at (subscribe-IsAsked cluster st b.driver)) run.backed;
  made = run.made;
  owned = run.owned;
}

pub enter-IsRunning :
    (st : Start) (b : Beam) (ps : List Start) (ls : List Loop) (consumer : Consumer)
    → IsSubscribed b.driver st.subscription_key consumer
    → IsRunning (system b ps ls)
    → IsRunning (
        system
          (record b { registry = enter st.subscription_key b.registry })
          ps
          (new_loop st b.registry.next ∷ ls))
enter-IsRunning st b ps ls consumer sub run = record {
  backed = enter-IsBacked st.subscription_key b consumer run.made sub run.backed;
  made = enter-IsMade st.subscription_key b.registry run.made;
  owned = (
    new-IsOwned st b.registry run.made,
    All-imp (IsOwned b.registry) (IsOwned (enter st.subscription_key b.registry)) ls
        (enter-IsOwned st.subscription_key b.registry) run.owned,
  );
}
