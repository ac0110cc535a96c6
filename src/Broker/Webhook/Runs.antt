-- ===== src/Broker/Webhook/Runs.antt =====
-- Which consumers a run keeps.
use pulsar_beam.Prelude.{
  not, ℕ, String, Bool, false, ◌&&◌, ◌||◌, none, some, List, [], ◌∷◌, ◌≡◌, refl, arith,
  if◌then◌else◌, ◌==◌, eq_iff, Option-cases, Bool-cases, inl, inr,
}
use pulsar_beam.Prelude.Maps.{Map, lookup, delete, lookup-insert, lookup-delete}
use pulsar_beam.Model.Topic.{WebhookConfig, TopicConfig}
use pulsar_beam.Broker.Webhook.{
  Registry, Start, delete_webhook, is_closed, is_activated, is_in, subscription_key, note_webhook,
  run_webhooks, run_configs, cancel_one, cancel_all, run,
}

-- Whether a document has an activated webhook with the key.
unfoldable pub wants : TopicConfig → List WebhookConfig → String → Bool
wants cfg [] key = false
wants cfg (wh ∷ whs) key =
    (is_activated wh.webhook_status && subscription_key cfg wh == key) || wants cfg whs key

unfoldable pub wanted : List TopicConfig → String → Bool
unfolding wants
wanted [] key = false
wanted (cfg ∷ cfgs) key = wants cfg cfg.webhooks key || wanted cfgs key

module _ (reg : Registry) where
  note_webhook-keys :
      (cfg : TopicConfig) (wh : WebhookConfig) (acc : Map Bool × List Start) (key : String)
      → is_in (lookup key (note_webhook reg cfg wh acc).0) ≡ (
          (is_activated wh.webhook_status && subscription_key cfg wh == key)
          || is_in (lookup key acc.0))
  unfolding note_webhook
  note_webhook-keys cfg wh (keys, starts) key = elim (Bool-cases (is_activated wh.webhook_status)) [
    | inr off ↦ rw off refl
    | inl on ↦ rw (on, lookup-insert) (ground arith)
  ]

  run_webhooks-keys :
      (cfg : TopicConfig) (whs : List WebhookConfig) (acc : Map Bool × List Start) (key : String)
      → is_in (lookup key (run_webhooks reg cfg whs acc).0)
        ≡ (wants cfg whs key || is_in (lookup key acc.0))
  unfolding run_webhooks wants
  run_webhooks-keys cfg [] acc key = refl
  run_webhooks-keys cfg (wh ∷ whs) acc key = ground (
    arith,
    run_webhooks-keys cfg whs (note_webhook reg cfg wh acc) key,
    note_webhook-keys cfg wh acc key,
  )

  pub run_configs-keys :
      (cfgs : List TopicConfig) (acc : Map Bool × List Start) (key : String)
      → is_in (lookup key (run_configs reg cfgs acc).0)
        ≡ (wanted cfgs key || is_in (lookup key acc.0))
  unfolding run_configs wanted
  run_configs-keys [] acc key = refl
  run_configs-keys (cfg ∷ cfgs) acc key = ground (
    arith,
    run_configs-keys cfgs (run_webhooks reg cfg cfg.webhooks acc) key,
    run_webhooks-keys cfg cfg.webhooks acc key,
  )

abbrev pub listed : String → Map ℕ → Bool
listed key [] = false
listed key ((k, c) ∷ rest) = k == key || listed key rest

pub lookup-listed : (key : String) (m : Map ℕ) → listed key m ≡ false → lookup key m ≡ none
unfolding lookup
lookup-listed key [] h = refl
lookup-listed key ((k, c) ∷ m) h = ground (arith, lookup-listed key m)

-- Every entry of the registry is a channel that is still open.
pub record IsOpen (reg : Registry) : Type 0 where
  pub is_open :
      (key : String) (c : ℕ) → lookup key reg.webhooks ≡ some c → is_closed reg.closed c ≡ false

module _ (keys : Map Bool) where
  cancel_one-lookup :
      (k key : String) (reg reg' : Registry)
      → cancel_one keys k reg ≡ some reg'
      → lookup key reg'.webhooks
        ≡ (if k == key && not (is_in (lookup key keys)) then none else lookup key reg.webhooks)
  unfolding cancel_one delete_webhook
  cancel_one-lookup k key reg reg' h =
      ground (arith, eq_iff k key, lookup-delete k key reg.webhooks)

  cancel_all-lookup :
      (rest : Map ℕ) (key : String) (reg reg' : Registry)
      → cancel_all keys rest reg ≡ some reg'
      → lookup key reg'.webhooks ≡ (
          if listed key rest && not (is_in (lookup key keys))
          then none
          else lookup key reg.webhooks)
  unfolding cancel_all
  cancel_all-lookup [] key reg reg' h = ground arith
  cancel_all-lookup ((k, c) ∷ rest) key reg reg' h = elim (Option-cases (cancel_one keys k reg)) [
    | inl panics ↦ ground arith
    | inr (middle, one) ↦
        let later : cancel_all keys rest middle ≡ some reg' = ground arith in
        ground (
          arith,
          cancel_one-lookup k key reg middle one,
          cancel_all-lookup rest key middle reg' later,
        )
  ]

  cancel_one-IsOpen :
      (k : String) (reg : Registry)
      → IsOpen reg
      → (reg' : Registry) × (cancel_one keys k reg ≡ some reg') × IsOpen reg'
  unfolding cancel_one delete_webhook
  cancel_one-IsOpen k reg o = elim (Bool-cases (is_in (lookup k keys))) [
    | inl kept ↦ (reg, rw kept refl, o)
    | inr gone ↦ elim (Option-cases (lookup k reg.webhooks)) [
      | inl missing ↦ (reg, rw (gone, missing) refl, o)
      | inr (c, found) ↦ (
        record reg { webhooks = delete k reg.webhooks },
        rw (gone, found, o.is_open k c found) refl,
        record {
          is_open = λ key d h. o.is_open key d (ground (arith, lookup-delete k key reg.webhooks));
        },
      )
    ]
  ]

  cancel_all-IsOpen :
      (rest : Map ℕ) (reg : Registry)
      → IsOpen reg
      → (reg' : Registry) × (cancel_all keys rest reg ≡ some reg')
  unfolding cancel_all
  cancel_all-IsOpen [] reg o = (reg, refl)
  cancel_all-IsOpen ((k, c) ∷ rest) reg o =
      let (middle, one, o') = cancel_one-IsOpen k reg o in
      let (reg', all) = cancel_all-IsOpen rest middle o' in (reg', rw (one, cancel_all) all)

-- From a registry whose channels are all open, a run does not panic, and keeps exactly the entries
-- whose key an activated webhook of the documents has.
pub run-lookup :
    (cfgs : List TopicConfig) (reg : Registry)
    → IsOpen reg
    → (reg' : Registry) × ((run cfgs reg).1 ≡ some reg')
      × ((key : String)
          → lookup key reg'.webhooks ≡ (if wanted cfgs key then lookup key reg.webhooks else none))
unfolding run
run-lookup cfgs reg o =
    let keys = (run_configs reg cfgs ([], [])).0 in
    let (reg', done) = cancel_all-IsOpen keys reg.webhooks reg o in
    (
      reg',
      done,
      λ key. ground (
        arith,
        cancel_all-lookup keys reg.webhooks key reg reg' done,
        run_configs-keys reg cfgs ([], []) key,
        lookup-listed key reg.webhooks,
      ),
    )
