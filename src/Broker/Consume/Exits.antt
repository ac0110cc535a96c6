-- ===== src/Broker/Consume/Exits.antt =====
-- What a loop that ends leaves in the registry.
use pulsar_beam.Prelude.{
  ℕ, suc, String, true, false, Option, none, some, List, ◌≡◌, sym, ◌∙◌, refl, arith, nat_eq,
  eq_refl, ok, >>=-eq-ok,
}
use pulsar_beam.Prelude.Maps.{insert, delete, lookup-insert, lookup-delete}
use pulsar_beam.Model.Topic.{WebhookConfig}
use pulsar_beam.Broker.Webhook.{
  Registry, read_webhook, delete_webhook, deleted, panicked, is_closed, write_webhook,
}
use pulsar_beam.Broker.Consume.{
  Web, Push, Event, max_reached, lost, close_channel, enter, leave, consume_loop, open_consumer,
}

nat_eq_refl : (n : ℕ) → nat_eq n n ≡ true
nat_eq_refl n = ground arith

-- A registry whose entry under a key is a closed channel: the webhook counts as running, and
-- cancelling it panics.
pub record IsStale (key : String) (reg : Registry) : Type 0 where
  pub channel : ℕ
  pub running : read_webhook key reg ≡ some channel
  pub panics : delete_webhook key reg ≡ panicked

leave_lost-IsStale :
    (key e : String) (reg : Registry)
    → (reg' : Registry) × (leave key reg.next (lost e) (enter key reg) ≡ some reg')
      × IsStale key reg'
unfolding leave enter write_webhook read_webhook delete_webhook
leave_lost-IsStale key e reg = (
  _,
  refl,
  record {
    channel = reg.next;
    running = rw (lookup-insert, eq_refl) refl;
    panics = rw (lookup-insert, eq_refl, nat_eq_refl) refl;
  },
)

-- A loop that ends because it cannot connect again leaves a closed channel under its key.
pub consume_loop-lost :
    (web : Web) (key : String) (wh : WebhookConfig) (connect : Option String) (events : List Event)
    (reg : Registry) (pushes : List Push) (e : String) (left : Option Registry)
    → consume_loop web key wh connect events reg ≡ ok (pushes, lost e, left)
    → (reg' : Registry) × (left ≡ some reg') × IsStale key reg'
unfolding consume_loop
consume_loop-lost web key wh connect events reg pushes e left h =
    let (_, _, k) = >>=-eq-ok (open_consumer wh connect) _ h in
    let same : leave key reg.next (lost e) (enter key reg) ≡ left = cc k in
    let (reg', s, stale) = leave_lost-IsStale key e reg in (reg', sym same ∙ s, stale)

abbrev forgotten : String → Registry → Registry
forgotten key reg = record reg {
  webhooks = delete key (insert key reg.next reg.webhooks);
  next = suc reg.next;
}

delete_webhook-enter :
    (key : String) (reg : Registry)
    → is_closed reg.closed reg.next ≡ false
    → delete_webhook key (enter key reg) ≡ deleted true (forgotten key reg)
unfolding enter write_webhook delete_webhook
delete_webhook-enter key reg fresh = rw (lookup-insert, eq_refl, fresh) refl

-- A loop that gives up after too many errors forgets its key, if the number of its channel is new.
pub leave_max_reached :
    (key : String) (reg : Registry)
    → is_closed reg.closed reg.next ≡ false
    → (reg' : Registry) × (leave key reg.next max_reached (enter key reg) ≡ some reg')
      × (read_webhook key reg' ≡ none)
unfolding leave read_webhook
leave_max_reached key reg fresh = (
  close_channel reg.next (forgotten key reg),
  rw (delete_webhook-enter key reg fresh, leave) refl,
  rw (lookup-delete, eq_refl) refl,
)
