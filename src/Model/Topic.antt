-- ===== src/Model/Topic.antt =====
-- src/model/topic.go: topic documents, the keys that identify them, and their validation.
pub mod Validation
pub mod Keys
use pulsar_beam.Prelude.{
  ℕ, String, Char, code, Bool, true, false, ◌&&◌, ◌||◌, not, Option, none, some, List, [], ◌∷◌,
  Result, ok, err, ◌>>=◌, ◌>>◌, leb, if◌then◌else◌, ◌==◌,
}
use pulsar_beam.Prelude.Maps.{Map, lookup, insert}
use pulsar_beam.Platform.{Platform}
use pulsar_beam.Strings.{◌<>◌, trim_space, to_lower, same_char}
use pulsar_beam.Strings.Decimal.{decimal}
use pulsar_beam.Model.Regex.{Regex, set, seq, alt, star, optional, lit, up_to, match_string}

-- The states of a webhook.
pub data Status : Type 0 where
  deactivated activated suspended deleted : Status

pub record WebhookConfig : Type 0 where
  pub url : String
  pub headers : List String
  pub subscription : String
  pub subscription_type : String
  pub initial_position : String
  pub webhook_status : Status
  pub created_at : ℕ
  pub updated_at : ℕ
  pub deleted_at : ℕ

-- A time is a number of nanoseconds; the zero `time.Time` is 0.
pub record TopicConfig : Type 0 where
  pub topic_full_name : String
  pub pulsar_url : String
  pub token : String
  pub tenant : String
  pub key : String
  pub notes : String
  pub topic_status : Status
  pub webhooks : List WebhookConfig
  pub created_at : ℕ
  pub updated_at : ℕ

pub record TopicKey : Type 0 where
  pub topic_full_name : String
  pub pulsar_url : String

-- The Pulsar client's constants that the configuration texts stand for.
pub data SubscriptionType : Type 0 where
  exclusive shared failover key_shared : SubscriptionType

pub data InitialPosition : Type 0 where
  latest earliest : InitialPosition

abbrev pub non_resumable : String
non_resumable = "NonResumable"

is_alphanumeric : Char → Bool
is_alphanumeric c =
    let n = code c in
    (leb b'a' n && leb n b'z') || (leb b'A' n && leb n b'Z') || (leb b'0' n && leb n b'9')

is_digit : Char → Bool
is_digit c = leb b'0' (code c) && leb (code c) b'9'

abbrev label : Regex
label = seq (set is_alphanumeric) (star (set is_alphanumeric))

unfoldable pub pulsar_url_regex : Regex
unfolding is_alphanumeric is_digit
pulsar_url_regex = seq (optional (alt (lit "pulsar") (lit "pulsar+ssl"))) (
    seq (lit "://") (
      seq label (
        seq (star (seq (set (λ c. same_char c "-" || same_char c ".")) label))
          (optional (seq (lit ":") (up_to 6 (set is_digit)))))))

unfoldable pub get_initial_position : String → Result InitialPosition
unfolding to_lower
get_initial_position text =
    let s = to_lower text in
    if s == "latest" || s == ""
    then ok latest
    else if s == "earliest"
    then ok earliest
    else err ("invalid subscription initial position " <> text)

unfoldable pub get_subscription_type : String → Result SubscriptionType
unfolding to_lower
get_subscription_type text =
    let s = to_lower text in
    if s == "exclusive" || s == ""
    then ok exclusive
    else if s == "shared"
    then ok shared
    else if s == "keyshared"
    then ok key_shared
    else if s == "failover"
    then ok failover
    else err ("unsupported subscription type " <> text)

-- `topic_key` is the random text of `icrypto.GenTopicKey`, `now` the clock.
unfoldable pub new_webhook_config : String → ℕ → String → WebhookConfig
unfolding decimal
new_webhook_config topic_key now url = record {
  url = url;
  headers = [];
  subscription = non_resumable <> topic_key <> decimal now;
  subscription_type = "exclusive";
  initial_position = "latest";
  webhook_status = activated;
  created_at = now;
  updated_at = now;
  deleted_at = 0;
}

module _ (platform : Platform) where
  unfoldable pub gen_key : String → String → String
  gen_key topic_full_name pulsar_url = platform.sha1_hex (topic_full_name <> pulsar_url)

  unfoldable pub get_key_from_names : String → String → Result String
  get_key_from_names topic_full_name pulsar_url =
      let url = trim_space pulsar_url in
      let name = trim_space topic_full_name in
      if url == "" || name == ""
      then err "missing PulsarURL or TopicFullName"
      else if match_string pulsar_url_regex url
      then ok (gen_key name url)
      else err ("incorrect pulsar url format " <> url)

  unfoldable pub new_topic_config : ℕ → String → String → String → Result TopicConfig
  new_topic_config now topic_full_name pulsar_url token = do
    key ← get_key_from_names topic_full_name pulsar_url
    ok (record {
      topic_full_name = topic_full_name;
      pulsar_url = pulsar_url;
      token = token;
      tenant = "";
      key = key;
      notes = "";
      topic_status = deactivated;
      webhooks = [];
      created_at = now;
      updated_at = now;
    })

  abbrev has_scheme_and_host : Option (String × String) → Bool
  has_scheme_and_host none = false
  has_scheme_and_host (some (scheme, host)) = not (scheme == "") && not (host == "")

  unfoldable pub is_url : String → Bool
  is_url text = has_scheme_and_host (platform.parse_url text)

  -- The map of exclusive subscription names after a webhook of the given type.
  unfoldable pub note_exclusive : SubscriptionType → String → Map Bool → Result (Map Bool)
  note_exclusive exclusive name subs = elim (lookup name subs) [
    | some true ↦
        err ("exclusive subscription " <> name <> " cannot be shared between multiple webhooks")
    | _ ↦ ok (insert name true subs)
  ]
  note_exclusive _ name subs = ok subs

  -- One round of the loop of `ValidateWebhookConfig`.
  unfoldable pub validate_webhook : WebhookConfig → Map Bool → Result (Map Bool)
  validate_webhook wh subs =
      if not (is_url wh.url)
      then err ("not a URL " <> wh.url)
      else if trim_space wh.subscription == ""
      then err "subscription name is missing"
      else do
        sub_type ← get_subscription_type wh.subscription_type
        subs' ← note_exclusive sub_type wh.subscription subs
        _ ← get_initial_position wh.initial_position
        ok subs'

  unfoldable pub validate_from : List WebhookConfig → Map Bool → Result (Unit {0})
  validate_from [] subs = ok tt
  validate_from (wh ∷ whs) subs = validate_webhook wh subs >>= validate_from whs

  unfoldable pub validate_webhook_config : List WebhookConfig → Result (Unit {0})
  validate_webhook_config whs = validate_from whs []

  unfoldable pub validate_topic_config : TopicConfig → Result String
  validate_topic_config top = do
    validate_webhook_config top.webhooks
    get_key_from_names top.topic_full_name top.pulsar_url
