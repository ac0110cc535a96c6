-- ===== src/Broker/Webhook.antt =====
-- src/broker/webhook.go: the consumers that push the messages of a topic to a webhook.
pub mod Runs
pub mod Loads
use pulsar_beam.Prelude.{
  ℕ, String, Bool, true, false, ◌||◌, Option, none, some, List, [], ◌∷◌, nat_eq, if◌then◌else◌,
}
use pulsar_beam.Prelude.Maps.{Map, lookup, insert, delete}
use pulsar_beam.Strings.{◌<>◌}
use pulsar_beam.Model.Topic.{WebhookConfig, TopicConfig, Status, activated}
use pulsar_beam.Db.{Crud}

-- The channels by the key of their subscription, and the channels that are closed. A channel is a
-- number, below `next` if it has been made.
pub record Registry : Type 0 where
  pub webhooks : Map ℕ
  pub closed : List ℕ
  pub next : ℕ

abbrev pub is_closed : List ℕ → ℕ → Bool
is_closed [] c = false
is_closed (d ∷ closed) c = nat_eq d c || is_closed closed c

unfoldable pub read_webhook : String → Registry → Option ℕ
unfolding lookup
read_webhook key reg = lookup key reg.webhooks

unfoldable pub write_webhook : String → ℕ → Registry → Registry
unfolding insert
write_webhook key c reg = record reg { webhooks = insert key c reg.webhooks }

-- A send on a closed channel panics. On an open one it goes into the buffer of two elements: a
-- channel is sent one signal, since it is forgotten with that.
pub data Deletion : Type 0 where
  deleted : Bool → Registry → Deletion
  panicked : Deletion

abbrev delete_channel : String → Registry → Option ℕ → Deletion
delete_channel key reg none = deleted false reg
delete_channel key reg (some c) =
    if is_closed reg.closed c
    then panicked
    else deleted true (record reg { webhooks = delete key reg.webhooks })

unfoldable pub delete_webhook : String → Registry → Deletion
unfolding lookup
delete_webhook key reg = delete_channel key reg (lookup key reg.webhooks)

-- The consumers that `run` starts.
pub record Start : Type 0 where
  pub url : String
  pub token : String
  pub topic : String
  pub subscription_key : String
  pub webhook : WebhookConfig

abbrev pub is_activated : Status → Bool
is_activated activated = true
is_activated _ = false

abbrev pub subscription_key : TopicConfig → WebhookConfig → String
subscription_key cfg wh = cfg.key <> wh.url

abbrev pub starting : TopicConfig → WebhookConfig → Option ℕ → List Start → List Start
starting cfg wh (some c) starts = starts
starting cfg wh none starts =
    record {
      url = cfg.pulsar_url;
      token = cfg.token;
      topic = cfg.topic_full_name;
      subscription_key = subscription_key cfg wh;
      webhook = wh;
    }
    ∷ starts

-- What one webhook adds to the set of the keys and to the consumers that are started.
unfoldable pub note_webhook :
    Registry → TopicConfig → WebhookConfig → Map Bool × List Start → Map Bool × List Start
unfolding read_webhook insert
note_webhook reg cfg wh (keys, starts) =
    let key = subscription_key cfg wh in
    if is_activated wh.webhook_status
    then (insert key true keys, starting cfg wh (read_webhook key reg) starts)
    else (keys, starts)

-- The two loops over the documents.
unfoldable pub run_webhooks :
    Registry → TopicConfig → List WebhookConfig → Map Bool × List Start → Map Bool × List Start
unfolding note_webhook
run_webhooks reg cfg [] acc = acc
run_webhooks reg cfg (wh ∷ whs) acc = run_webhooks reg cfg whs (note_webhook reg cfg wh acc)

unfoldable pub run_configs :
    Registry → List TopicConfig → Map Bool × List Start → Map Bool × List Start
unfolding run_webhooks
run_configs reg [] acc = acc
run_configs reg (cfg ∷ cfgs) acc = run_configs reg cfgs (run_webhooks reg cfg cfg.webhooks acc)

abbrev pub is_in : Option Bool → Bool
is_in none = false
is_in (some b) = b

abbrev pub after_deletion : Deletion → Option Registry
after_deletion panicked = none
after_deletion (deleted found reg) = some reg

-- The loop that cancels what is not in the set any more; the list is that of the keys to visit, and
-- `none` is a panic.
unfoldable pub cancel_one : Map Bool → String → Registry → Option Registry
unfolding lookup delete_webhook
cancel_one keys key reg =
    if is_in (lookup key keys) then some reg else after_deletion (delete_webhook key reg)

unfoldable pub cancel_all : Map Bool → List (String × ℕ) → Registry → Option Registry
unfolding cancel_one
cancel_all keys [] reg = some reg
cancel_all keys ((key, c) ∷ rest) reg = elim (cancel_one keys key reg) [
  | none ↦ none
  | some reg' ↦ cancel_all keys rest reg'
]

-- The error that `Load` returns is logged, and the list beside it is used.
abbrev pub logged : List TopicConfig × Option String → List TopicConfig
logged (cfgs, none) = cfgs
logged (cfgs, some e) = cfgs

unfoldable pub load_config : {S : Type 0} → Crud S → S → List TopicConfig
load_config db s = logged (db.load s)

-- One run over the documents that were loaded; `none` is a panic.
unfoldable pub run : List TopicConfig → Registry → List Start × Option Registry
unfolding run_configs cancel_all
run cfgs reg =
    let (keys, starts) = run_configs reg cfgs ([], []) in (starts, cancel_all keys reg.webhooks reg)

-- `run`, over a database in the state `s`.
unfoldable pub run_stored : {S : Type 0} → Crud S → S → Registry → List Start × Option Registry
unfolding load_config run
run_stored db s reg = run (load_config db s) reg
