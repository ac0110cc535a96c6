-- ===== src/Util/Settings.antt =====
-- src/util/config.go: how the configuration is read from a file and the environment. The struct
-- `Configuration` is the list of its fields, in the order of their declaration, since the code goes
-- through them by reflection.
pub mod Environment
use pulsar_beam.Prelude.{
  ℕ, suc, String, Bool, true, false, ◌&&◌, Option, none, some, List, [], ◌∷◌, Result, ok, err, ◌==◌,
  if◌then◌else◌,
}
use pulsar_beam.Prelude.Int.{ℤ, pos, negsuc}
use pulsar_beam.Prelude.Maps.{Map, lookup, insert}
use pulsar_beam.Strings.{◌<>◌, same_char, trim_left, trim_space, to_lower, has_prefix}
use pulsar_beam.Strings.Decimal.{decimal, atoi}
use pulsar_beam.Util.{Configuration}

pub data Field : Type 0 where
  text : String → Field
  number : ℤ → Field

abbrev pub Fields : Type 0
Fields = Map Field

-- `strings.TrimSuffix(s, "\n")`.
unfoldable pub trim_newline : String → String
trim_newline String.[] = String.[]
trim_newline (String.◌∷◌ c s) =
    let rest = trim_newline s in
    if same_char c "\n" && s == "" then String.[] else String.◌∷◌ c rest

-- `strconv.FormatInt(i, 10)`.
unfoldable pub format_int : ℤ → String
unfolding decimal
format_int (pos n) = decimal n
format_int (negsuc n) = "-" <> decimal (suc n)

abbrev pub overridden : String → Option String → String
overridden value none = value
overridden value (some env_v) = trim_newline env_v

-- An empty variable leaves a number as it is; one that is not a number panics, which is `none`.
abbrev pub overridden_number : ℤ → Option String → Option ℤ
overridden_number i none = some i
overridden_number i (some env_v) = if env_v == "" then some i else atoi env_v

abbrev pub field_text : Field → String
unfolding format_int
field_text (text v) = v
field_text (number i) = format_int i

abbrev pub read_field : Field → Option String → Option Field
read_field (text v) env_v = some (text (overridden v env_v))
read_field (number i) env_v = elim (overridden_number i env_v) [
  | none ↦ none
  | some j ↦ some (number j)
]

abbrev pub then_field : String → Field → Option (Fields × Map String) → Option (Fields × Map String)
then_field name field none = none
then_field name field (some (fields, env)) = some ((name, field) ∷ fields, env)

abbrev pub read_next :
    String → (Field → Option (Fields × Map String)) → Option Field → Option (Fields × Map String)
read_next name rest none = none
read_next name rest (some field) = then_field name field (rest field)

-- The loop. Each field is written back to the environment. No field is an unsigned number, for which
-- the code has a third branch.
unfoldable pub read_fields : Fields → Map String → Option (Fields × Map String)
unfolding trim_newline atoi format_int lookup insert
read_fields [] env = some ([], env)
read_fields ((name, field) ∷ fields) env =
    read_next name (λ field'. read_fields fields (insert name (field_text field') env))
      (read_field field (lookup name env))

-- The file system, and the libraries that fill in the fields that a file names.
pub record Files : Type 0 where
  pub read_file : String → Result String
  pub unmarshal_json : String → Fields → Result Fields
  pub unmarshal_yaml : String → Fields → Result Fields

-- The first character that is not white space.
unfoldable pub has_json_prefix : String → Bool
unfolding trim_left has_prefix
has_json_prefix buf = has_prefix (trim_left buf) "{"

abbrev pub unmarshalled : Result Fields → Map String → Option (Fields × Map String)
unmarshalled (err e) env = none
unmarshalled (ok fields) env = read_fields fields env

abbrev pub read_bytes : Files → Fields → Result String → Map String → Option (Fields × Map String)
read_bytes files fields (err e) env = none
read_bytes files fields (ok bytes) env =
    unmarshalled
      (if has_json_prefix bytes
        then files.unmarshal_json bytes fields
        else files.unmarshal_yaml bytes fields)
      env

-- The fields and the environment after `ReadConfigFile`; `none` is a panic.
unfoldable pub read_config_file :
    Files → String → Fields → Map String → Option (Fields × Map String)
unfolding has_json_prefix read_fields
read_config_file files config_file fields env =
    read_bytes files fields (files.read_file config_file) env

-- The fields of `Configuration` before a file is read, with the defaults of `Init`.
abbrev pub default_fields : Fields
default_fields =
    ("PORT", text "")
    ∷ ("CLUSTER", text "")
    ∷ ("LogLevel", text "")
    ∷ ("DbName", text "")
    ∷ ("DbPassword", text "")
    ∷ ("DbConnectionStr", text "")
    ∷ ("PbDbType", text "")
    ∷ ("PulsarPublicKey", text "")
    ∷ ("PulsarPrivateKey", text "")
    ∷ ("SuperRoles", text "")
    ∷ ("PulsarBrokerURL", text "")
    ∷ ("PulsarTLSAllowInsecureConnection", text "")
    ∷ ("PulsarTLSValidateHostname", text "")
    ∷ ("PbDbInterval", text "")
    ∷ ("TrustStore", text "")
    ∷ ("CertFile", text "")
    ∷ ("KeyFile", text "")
    ∷ ("PulsarClusters", text "")
    ∷ ("HTTPAuthImpl", text "")
    ∷ ("WorkerPoolSize", number (pos 4))
    ∷ ("PulsarTokenHeaderName", text "Authorization")
    ∷ []

abbrev pub text_of : Option Field → String
text_of (some (text v)) = v
text_of (some (number i)) = ""
text_of none = ""

-- What the modelled code reads of the fields.
unfoldable pub get_config : Fields → Configuration
unfolding lookup
get_config fields = record {
  pb_db_type = text_of (lookup "PbDbType" fields);
  pb_db_interval = text_of (lookup "PbDbInterval" fields);
  super_roles = text_of (lookup "SuperRoles" fields);
  pulsar_broker_url = text_of (lookup "PulsarBrokerURL" fields);
  pulsar_clusters = text_of (lookup "PulsarClusters" fields);
  http_auth_impl = text_of (lookup "HTTPAuthImpl" fields);
  pulsar_token_header_name = text_of (lookup "PulsarTokenHeaderName" fields);
}

pub data LogLevel : Type 0 where
  debug_level warn_level error_level fatal_level info_level : LogLevel

unfoldable pub log_level : String → LogLevel
unfolding trim_space to_lower
log_level level =
    let s = trim_space (to_lower level) in
    if s == "debug"
    then debug_level
    else if s == "warn"
    then warn_level
    else if s == "error"
    then error_level
    else if s == "fatal"
    then fatal_level
    else info_level

-- The file that `Init` reads; `env` is the value of PULSAR_BEAM_CONFIG.
unfoldable pub init_config : Files → String → Map String → Option (Fields × Map String)
unfolding read_config_file
init_config files env_file env =
    read_config_file files (if env_file == "" then "../config/pulsar_beam.yml" else env_file)
      default_fields env
