-- ===== src/Broker/System/Cancelling.antt =====
-- What the timer's runs and the loops that end keep.
use pulsar_beam.Prelude.{
  ℕ, String, some, List, [], ◌∷◌, ◌++◌, map, ◌≡◌, ◌≢◌, refl, ap, ◌∙◌, arith, eq_refl, All,
  All-without, All-map, All-imp,
}
use pulsar_beam.Prelude.Maps.{lookup}
use pulsar_beam.Broker.Webhook.{Registry, Start}
use pulsar_beam.Broker.Consume.{close_channel}
use pulsar_beam.Broker.Cancel.{Beam, state_of, drop_one, cancel_consumer}
use pulsar_beam.Broker.Cancel.Steps.{IsBacked, IsStep, drop_one-IsStep}
use pulsar_beam.Broker.System.{Loop, System, system, notify, close_loop, closed_behind, give_up}
use pulsar_beam.Broker.System.Ownership.{
  IsOwned, IsMade, IsShrunk, shrunk-IsMade, shrunk-IsOwned, close-IsOwned, close-IsMade,
}
use pulsar_beam.Broker.System.Asking.{close-IsBacked}

pub record IsRunning (s : System) : Type 0 where
  pub backed : IsBacked s.beam
  pub made : IsMade s.beam.registry
  pub owned : All (IsOwned s.beam.registry) s.loops

pub step-IsShrunk : (k : String) (b b' : Beam) → IsStep [] k b b' → IsShrunk b.registry b'.registry
step-IsShrunk k b b' s = record {
  left = λ key c h. ground (arith, s.webhooks key);
  same_closed = s.closed_channels;
  same_next = s.same_next;
}

shrunk-All :
    (reg reg' : Registry) (ls : List Loop)
    → IsShrunk reg reg'
    → All (IsOwned reg) ls
    → All (IsOwned reg') (map (notify reg reg') ls)
shrunk-All reg reg' ls s =
    All-map (IsOwned reg) (IsOwned reg') (notify reg reg') ls (λ l. shrunk-IsOwned reg reg' l s)

close-All :
    (reg : Registry) (c : ℕ) (ls : List Loop)
    → All (IsOwned reg) ls
    → All (IsOwned (close_channel c reg)) ls
close-All reg c ls = All-imp (IsOwned reg) (IsOwned (close_channel c reg)) ls (close-IsOwned reg c)

-- Where the loop's own key does not name its channel, no key does.
away_from :
    (reg : Registry) (l : Loop)
    → IsOwned reg l
    → lookup l.start.subscription_key reg.webhooks ≢ some l.channel
    → (key : String) → lookup key reg.webhooks ≢ some l.channel
away_from reg l own n key h = let e = own.names key h in n (rw e at h)

pub closing-IsRunning :
    (b : Beam) (pending : List Start) (ls : List Loop) (l : Loop)
    → IsRunning (system b pending ls)
    → IsOwned b.registry l
    → lookup l.start.subscription_key b.registry.webhooks ≢ some l.channel
    → IsRunning (system (close_loop l b) pending ls)
closing-IsRunning b pending ls l run own n = record {
  backed = close-IsBacked l.channel b (away_from b.registry l own n) run.backed;
  made = close-IsMade b.registry l.channel own.made run.made;
  owned = close-All b.registry l.channel ls run.owned;
}

-- A `cancelConsumer` that does not panic is a round of the loop that cancels, where nothing is kept.
pub cancel-IsStep :
    (key : String) (b b' : Beam)
    → IsBacked b
    → state_of (cancel_consumer key b) ≡ some b'
    → IsStep [] key b b'
unfolding drop_one cancel_consumer lookup
cancel-IsStep key b b' back e =
    let (middle, done, one) = drop_one-IsStep [] key b back in
    let same : middle ≡ b' = cc in rw same at one

pub cancel-IsRunning :
    (key : String) (b b' : Beam) (pending : List Start) (ls : List Loop)
    → IsStep [] key b b'
    → IsRunning (system b pending ls)
    → IsRunning (system b' pending (map (notify b.registry b'.registry) ls))
cancel-IsRunning key b b' pending ls one run =
    let shrunk = step-IsShrunk key b b' one in
    record {
      backed = one.backed;
      made = shrunk-IsMade b.registry b'.registry shrunk run.made;
      owned = shrunk-All b.registry b'.registry ls shrunk run.owned;
    }

-- What giving up does before the channel is closed is a round of the loop that cancels, where
-- nothing is kept.
pub give_up-drop_one :
    (l : Loop) (b : Beam) → give_up l b ≡ closed_behind l (drop_one [] l.start.subscription_key b)
unfolding give_up drop_one cancel_consumer lookup
give_up-drop_one l b = refl

given_up-IsRunning :
    (b middle : Beam) (pending : List Start) (ls ms : List Loop) (l : Loop)
    → IsStep [] l.start.subscription_key b middle
    → IsRunning (system b pending (ls ++ (l ∷ ms)))
    → IsRunning
        (system (close_loop l middle) pending (map (notify b.registry middle.registry) (ls ++ ms)))
unfolding lookup
given_up-IsRunning b middle pending ls ms l one run =
    let (own, others) = All-without (IsOwned b.registry) ls ms l run.owned in
    let shrunk = step-IsShrunk l.start.subscription_key b middle one in
    let gone = one.webhooks l.start.subscription_key in
    let away : lookup l.start.subscription_key middle.registry.webhooks ≢ some l.channel =
      λ h. cc (rw (eq_refl, h) at gone) in
    closing-IsRunning middle pending (map (notify b.registry middle.registry) (ls ++ ms)) l
      (record {
        backed = one.backed;
        made = shrunk-IsMade b.registry middle.registry shrunk run.made;
        owned = shrunk-All b.registry middle.registry (ls ++ ms) shrunk others;
      })
      (record {
        names = λ key h. own.names key (shrunk.left key l.channel h);
        quiet = λ _. away;
        made = rw shrunk.same_next own.made;
      })
      away

-- A loop that gives up, up to the closing of its channel.
pub gives_up :
    (b : Beam) (l : Loop) (b' : Beam)
    → IsBacked b
    → give_up l b ≡ some b'
    → (middle : Beam) × (close_loop l middle ≡ b') × IsStep [] l.start.subscription_key b middle
gives_up b l b' back e =
    let (middle, done, one) = drop_one-IsStep [] l.start.subscription_key b back in
    let g = give_up-drop_one l b ∙ ap (closed_behind l) done in (middle, cc, one)

pub give_up-IsShrunk :
    (b : Beam) (l : Loop) (b' : Beam)
    → IsBacked b
    → give_up l b ≡ some b'
    → (middle : Beam) × (close_loop l middle ≡ b') × IsShrunk b.registry middle.registry
give_up-IsShrunk b l b' back e =
    let (middle, same, one) = gives_up b l b' back e in
    (middle, same, step-IsShrunk l.start.subscription_key b middle one)

pub exceed-IsRunning :
    (s : System) (ls ms : List Loop) (l : Loop) (b : Beam)
    → s.loops ≡ ls ++ (l ∷ ms)
    → give_up l s.beam ≡ some b
    → IsRunning s
    → IsRunning (system b s.pending (map (notify s.beam.registry b.registry) (ls ++ ms)))
unfolding notify
exceed-IsRunning s ls ms l b place e run =
    let (middle, same, one) = gives_up s.beam l b run.backed e in
    let owned = run.owned in
    rw (← same) (
      given_up-IsRunning s.beam middle s.pending ls ms l one
        (record { backed = run.backed; made = run.made; owned = rw place at owned }))
