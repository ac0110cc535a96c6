-- ===== src/Util.antt =====
-- src/util/util.go, src/util/main_control.go and the derived globals of src/util/config.go.
pub mod Topics
pub mod Clusters
pub mod Modes
pub mod Cache
pub mod Settings
pub mod Certs
use Prim.Native.String.{len}
use pulsar_beam.Prelude.{
  ℕ, String, Char, code, Bool, true, false, ◌&&◌, ◌||◌, not, Option, none, some, List, [], ◌∷◌,
  ◌++◌, Result, ok, err, ltb, leb, nat_eq, length, if◌then◌else◌, ◌==◌, ◌-◌,
}
use pulsar_beam.Prelude.Int.{ℤ}
use pulsar_beam.Prelude.Maps.{Map, lookup, insert}
use pulsar_beam.Strings.{
  ◌<>◌, trim_space, to_lower, lower_char, nth_char, same_char, has_prefix, replace_first, split,
}
use pulsar_beam.Strings.Decimal.{atoi}

-- The configuration, as far as the modelled code reads it.
pub record Configuration : Type 0 where
  pub pb_db_type : String
  pub pb_db_interval : String
  pub super_roles : String
  pub pulsar_broker_url : String
  pub pulsar_clusters : String
  pub http_auth_impl : String
  pub pulsar_token_header_name : String

-- An `http.Header` under canonical names, and `url.Values`. Neither holds an empty list.
abbrev pub Values : Type 0
Values = Map (List String)

abbrev pub first : List String → String
first [] = ""
first (s ∷ _) = s

upper_char : Char → Char
upper_char c =
    let n = code c in
    if leb b'a' n && leb n b'z' then nth_char "ABCDEFGHIJKLMNOPQRSTUVWXYZ" (n - b'a') c else c

canonical_from : Bool → String → String
unfolding upper_char lower_char
canonical_from upper String.[] = String.[]
canonical_from upper (String.◌∷◌ c s) =
    String.◌∷◌ (if upper then upper_char c else lower_char c) (canonical_from (same_char c "-") s)

-- `textproto.CanonicalMIMEHeaderKey` of a valid header name.
unfoldable pub canonical : String → String
unfolding canonical_from
canonical name = canonical_from true name

abbrev first_of_found : Option (List String) → String
first_of_found none = ""
first_of_found (some values) = first values

-- `h.Get(name)` and `h.Set(name, value)`.
unfoldable pub header_get : Values → String → String
unfolding canonical lookup
header_get h name = first_of_found (lookup (canonical name) h)

unfoldable pub header_set : String → String → Values → Values
unfolding canonical
header_set name value h = insert (canonical name) (value ∷ []) h

-- The first text that is not empty.
unfoldable pub assign_string : List String → String
assign_string [] = ""
assign_string (v ∷ vs) = if v == "" then assign_string vs else v

unfoldable pub join_string : List String → String
join_string [] = ""
join_string (s ∷ strs) = s <> join_string strs

unfoldable pub str_contains : List String → String → Bool
str_contains [] str = false
str_contains (v ∷ strs) str = trim_space v == trim_space str || str_contains strs str

unfoldable pub string_to_bool : String → Bool
unfolding to_lower trim_space
string_to_bool str =
    let s = to_lower (trim_space str) in
    s == "true" || s == "yes" || s == "enable" || s == "enabled" || s == "1" || s == "ok"

-- `env` is the value of the variable, empty where it is not set.
unfoldable pub get_env_int : String → ℤ → ℤ
unfolding atoi
get_env_int env default_num = elim (atoi env) [ none ↦ default_num | some i ↦ i ]

unfoldable pub query_param_string : Values → String → String → String
query_param_string params name default_value = elim (lookup name params) [
  | none ↦ default_value
  | some str ↦ first str
]

unfoldable pub query_param_int : Values → String → ℤ → ℤ
unfolding atoi
query_param_int params name default_value = elim (lookup name params) [
  | none ↦ default_value
  | some str ↦ elim (atoi (first str)) [ none ↦ default_value | some num ↦ num ]
]

unfoldable pub build_topic_fn : String → String → String → String → Result String
build_topic_fn persistent tenant namespace topic =
    if persistent == "persistent" || persistent == "p"
    then ok ("persistent://" <> tenant <> "/" <> namespace <> "/" <> topic)
    else if persistent == "non-persistent" || persistent == "np"
    then ok ("non-persistent://" <> tenant <> "/" <> namespace <> "/" <> topic)
    else err "supported persistent types are persistent, p, non-persistent, np"

pub record TopicParts : Type 0 where
  pub is_persistent : Bool
  pub tenant : String
  pub namespace : String
  pub topic : String

tokenize_parts : Bool → List String → Result TopicParts
tokenize_parts is_persistent (tenant ∷ namespace ∷ topic ∷ []) = ok (record {
  is_persistent = is_persistent;
  tenant = tenant;
  namespace = namespace;
  topic = topic;
})
tokenize_parts is_persistent (tenant ∷ namespace ∷ []) =
    ok
      (record { is_persistent = is_persistent; tenant = tenant; namespace = namespace; topic = "" })
tokenize_parts is_persistent _ = err "missing tenant, namespace, or topic name"

unfoldable pub tokenize_topic_full_name : String → Result TopicParts
unfolding tokenize_parts
tokenize_topic_full_name topic_fn =
    if has_prefix topic_fn "persistent://"
    then tokenize_parts true (split (replace_first topic_fn "persistent://" "") "/")
    else if has_prefix topic_fn "non-persistent://"
    then tokenize_parts false (split (replace_first topic_fn "non-persistent://" "") "/")
    else err "invalid persistent or non-persistent part"

-- src/util/main_control.go. The modes of the server.
abbrev pub broker : String
broker = "broker"

abbrev pub receiver_mode : String
receiver_mode = "receiver"

abbrev pub http_only : String
http_only = "http"

abbrev pub hybrid : String
hybrid = "hybrid"

abbrev pub token_server : String
token_server = "tokenserver"

abbrev pub http_with_no_rest : String
http_with_no_rest = "http2"

abbrev pub rest : String
rest = "rest"

unfoldable pub is_broker_required : String → Bool
is_broker_required mode = mode == broker || mode == hybrid

unfoldable pub is_http_router_required : String → Bool
unfolding str_contains
is_http_router_required mode =
    str_contains (hybrid ∷ receiver_mode ∷ rest ∷ token_server ∷ http_only ∷ http_with_no_rest ∷ [])
      mode

unfoldable pub is_broker : String → Bool
is_broker mode = mode == broker

unfoldable pub is_valid_mode : String → Bool
unfolding str_contains
is_valid_mode mode =
    str_contains
      (broker ∷ hybrid ∷ receiver_mode ∷ rest ∷ token_server ∷ http_only ∷ http_with_no_rest ∷ [])
      mode

-- `AllowedPulsarURLs` and `SuperRoles`, as `ReadConfigFile` computes them from the configuration.
unfoldable pub allowed_pulsar_urls : Configuration → List String
unfolding assign_string split
allowed_pulsar_urls cfg =
    let urls = split (assign_string (cfg.pulsar_clusters ∷ "" ∷ [])) "," in
    if cfg.pulsar_broker_url == "" then urls else cfg.pulsar_broker_url ∷ urls

unfoldable pub super_role_list : Configuration → List String
unfolding assign_string split
super_role_list cfg = split (assign_string (cfg.super_roles ∷ "superuser" ∷ [])) ","

-- What a request says about the Pulsar topic that it is meant for.
pub record Receiver : Type 0 where
  pub token : String
  pub topic_fn : String
  pub pulsar_url : String

abbrev pub receiver : String → String → String → Receiver
receiver token topic_fn pulsar_url = record {
  token = token;
  topic_fn = topic_fn;
  pulsar_url = pulsar_url;
}

unfoldable pub receiver_token : Configuration → Values → String
unfolding header_get trim_space replace_first
receiver_token cfg h =
    if cfg.pulsar_token_header_name == ""
    then ""
    else trim_space (replace_first (header_get h cfg.pulsar_token_header_name) "Bearer" "")

-- Whether requests are held to a list of clusters.
unfoldable pub is_restricted : List String → Bool
is_restricted [] = false
is_restricted (url ∷ []) = not (url == "")
is_restricted (_ ∷ _ ∷ _) = true

unfoldable pub receiver_header : Configuration → List String → Values → Result Receiver
unfolding receiver_token is_restricted
receiver_header cfg allowed_clusters h =
    let token = receiver_token cfg h in
    let topic_fn = header_get h "TopicFn" in
    let pulsar_url = header_get h "PulsarUrl" in
    if is_restricted allowed_clusters
    then if pulsar_url == ""
      then ok (receiver token topic_fn (first allowed_clusters))
      else if str_contains allowed_clusters pulsar_url
      then ok (receiver token topic_fn pulsar_url)
      else err ("pulsar cluster " <> pulsar_url <> " is not allowed")
    else if pulsar_url == ""
    then err "missing configured Pulsar URL"
    else ok (receiver token topic_fn pulsar_url)
