-- ===== src/Model/Topic/Validation.antt =====
-- `ValidateWebhookConfig` accepts a list exactly if each webhook is well formed and no two exclusive
-- ones share a subscription name.
use pulsar_beam.Prelude.{
  String, Bool, true, ◌≡◌, ◌≢◌, ◌↔◌, refl, some, List, [], ◌∷◌, All, All-imp, All-zip, Result, ok,
  >>=-eq-ok, arith, eq_iff,
}
use pulsar_beam.Prelude.Maps.{Map, lookup, insert, lookup-insert}
use pulsar_beam.Platform.{Platform}
use pulsar_beam.Strings.{trim_space}
use pulsar_beam.Model.Topic.{
  WebhookConfig, SubscriptionType, exclusive, InitialPosition, get_subscription_type,
  get_initial_position, is_url, note_exclusive, validate_webhook, validate_from,
  validate_webhook_config,
}

pub record IsValidWebhook (platform : Platform) (wh : WebhookConfig) : Type 0 where
  pub url : is_url platform wh.url ≡ true
  pub named : trim_space wh.subscription ≢ ""
  pub typed : (t : SubscriptionType) × (get_subscription_type wh.subscription_type ≡ ok t)
  pub placed : (p : InitialPosition) × (get_initial_position wh.initial_position ≡ ok p)

abbrev add_exclusive : Result SubscriptionType → String → List String → List String
add_exclusive (ok exclusive) name names = name ∷ names
add_exclusive _ name names = names

-- The subscription names of the exclusive webhooks, in order.
abbrev pub exclusive_names : List WebhookConfig → List String
exclusive_names [] = []
exclusive_names (wh ∷ whs) =
    add_exclusive (get_subscription_type wh.subscription_type) wh.subscription (exclusive_names whs)

abbrev pub IsDistinct : List String → Type 0
IsDistinct [] = Unit
IsDistinct (x ∷ xs) = All (λ y. x ≢ y) xs × IsDistinct xs

abbrev IsFresh : Map Bool → String → Type 0
IsFresh subs n = lookup n subs ≢ some true

IsFresh-insert_iff :
    (subs : Map Bool) (name n : String)
    → IsFresh (insert name true subs) n ↔ ((name ≢ n) × IsFresh subs n)
IsFresh-insert_iff subs name n = rw lookup-insert (ground (arith, eq_iff name n))

module _ (platform : Platform) where
  -- What a round has found out when it goes on.
  validate_webhook-IsValid :
      (wh : WebhookConfig) (subs subs' : Map Bool)
      → validate_webhook platform wh subs ≡ ok subs'
      → IsValidWebhook platform wh
  unfolding validate_webhook
  validate_webhook-IsValid wh subs subs' e = record {
    url = ground arith;
    named = ground (arith, eq_iff (trim_space wh.subscription) "");
    typed = ground arith;
    placed = ground arith;
  }

  validate_webhook-note :
      (wh : WebhookConfig) (subs subs' : Map Bool) (t : SubscriptionType)
      → validate_webhook platform wh subs ≡ ok subs'
      → get_subscription_type wh.subscription_type ≡ ok t
      → note_exclusive platform t wh.subscription subs ≡ ok subs'
  unfolding validate_webhook
  validate_webhook-note wh subs subs' t e h = ground arith

  -- Valid webhooks pass the round as far as the map of names lets them.
  validate_webhook_of_IsValid :
      (wh : WebhookConfig) (subs subs' : Map Bool) (t : SubscriptionType)
      → IsValidWebhook platform wh
      → get_subscription_type wh.subscription_type ≡ ok t
      → note_exclusive platform t wh.subscription subs ≡ ok subs'
      → validate_webhook platform wh subs ≡ ok subs'
  unfolding validate_webhook
  validate_webhook_of_IsValid wh subs subs' t v h n =
      ground (arith, eq_iff (trim_space wh.subscription) "", v.placed, v.url, v.named)

  note_exclusive-eq-ok_iff :
      (name : String) (subs subs' : Map Bool)
      → (note_exclusive platform exclusive name subs ≡ ok subs')
        ↔ (IsFresh subs name × (subs' ≡ insert name true subs))
  unfolding note_exclusive
  note_exclusive-eq-ok_iff name subs subs' = ground arith

  abbrev IsAccepted : List WebhookConfig → Map Bool → Type 0
  IsAccepted whs subs =
      All (IsValidWebhook platform) whs
      × All (IsFresh subs) (exclusive_names whs)
      × IsDistinct (exclusive_names whs)

  IsAccepted-cons :
      (wh : WebhookConfig) (whs : List WebhookConfig) (subs subs' : Map Bool) (t : SubscriptionType)
      → IsValidWebhook platform wh
      → get_subscription_type wh.subscription_type ≡ ok t
      → note_exclusive platform t wh.subscription subs ≡ ok subs'
      → IsAccepted whs subs'
      → IsAccepted (wh ∷ whs) subs
  unfolding note_exclusive
  IsAccepted-cons wh whs subs subs' exclusive v h n (vs, fresh, distinct) =
      let (new, same) = (note_exclusive-eq-ok_iff wh.subscription subs subs').0 n in
      let rest : All (λ y. (wh.subscription ≢ y) × IsFresh subs y) (exclusive_names whs) =
        All-imp _ _ _ (λ y. (IsFresh-insert_iff subs wh.subscription y).0) (rw same at fresh) in
      rw h (
        (v, vs),
        (new, All-imp _ _ _ (λ y k. k.1) rest),
        (All-imp _ _ _ (λ y k. k.0) rest, distinct),
      )
  IsAccepted-cons wh whs subs subs' _ v h n (vs, fresh, distinct) =
      let same : subs' ≡ subs = cc in rw h ((v, vs), rw same at fresh, distinct)

  validate_from_sound :
      (whs : List WebhookConfig) (subs : Map Bool)
      → validate_from platform whs subs ≡ ok tt
      → IsAccepted whs subs
  unfolding validate_from
  validate_from_sound [] subs e = (tt, tt, tt)
  validate_from_sound (wh ∷ whs) subs e =
      let (subs', e1, e2) = >>=-eq-ok (validate_webhook platform wh subs) _ e in
      let v = validate_webhook-IsValid wh subs subs' e1 in
      let (t, h) = v.typed in
      IsAccepted-cons wh whs subs subs' t v h (validate_webhook-note wh subs subs' t e1 h)
        (validate_from_sound whs subs' e2)

  IsAccepted-uncons :
      (wh : WebhookConfig) (whs : List WebhookConfig) (subs : Map Bool) (t : SubscriptionType)
      → get_subscription_type wh.subscription_type ≡ ok t
      → IsAccepted (wh ∷ whs) subs
      → (subs' : Map Bool) × (note_exclusive platform t wh.subscription subs ≡ ok subs')
        × IsAccepted whs subs'
  unfolding note_exclusive
  IsAccepted-uncons wh whs subs exclusive h a =
      let ((v, vs), (new, fresh), (other, distinct)) = rw h at a in
      let n = (note_exclusive-eq-ok_iff wh.subscription subs _).1 (new, refl) in
      let fresh' =
        All-imp _ _ _ (λ y. (IsFresh-insert_iff subs wh.subscription y).1)
          (All-zip _ _ (exclusive_names whs) other fresh) in
      (insert wh.subscription true subs, n, (vs, fresh', distinct))
  IsAccepted-uncons wh whs subs _ h a =
      let ((v, vs), fresh, distinct) = rw h at a in (subs, refl, (vs, fresh, distinct))

  validate_from_complete :
      (whs : List WebhookConfig) (subs : Map Bool)
      → IsAccepted whs subs
      → validate_from platform whs subs ≡ ok tt
  unfolding validate_from
  validate_from_complete [] subs a = refl
  validate_from_complete (wh ∷ whs) subs a =
      let v = a.0.0 in
      let (t, h) = v.typed in
      let (subs', n, rest) = IsAccepted-uncons wh whs subs t h a in
      rw (validate_webhook_of_IsValid wh subs subs' t v h n) (validate_from_complete whs subs' rest)

  All-IsFresh-nil : (names : List String) → All (IsFresh []) names
  unfolding lookup
  All-IsFresh-nil [] = tt
  All-IsFresh-nil (n ∷ names) = ((λ e. cc), All-IsFresh-nil names)

  -- The webhooks of a document pass validation exactly if each of them is well formed (an absolute
  -- URL, a subscription name that is not blank, a known subscription type, a known initial position)
  -- and no two of the exclusive ones have the same subscription name.
  pub validate_webhook_config-eq-ok_iff :
      (whs : List WebhookConfig)
      → (validate_webhook_config platform whs ≡ ok tt)
        ↔ (All (IsValidWebhook platform) whs × IsDistinct (exclusive_names whs))
  unfolding validate_webhook_config
  validate_webhook_config-eq-ok_iff whs = (
    λ e. let (vs, _, distinct) = validate_from_sound whs [] e in (vs, distinct),
    λ (vs, distinct). validate_from_complete whs [] (vs, All-IsFresh-nil _, distinct),
  )
