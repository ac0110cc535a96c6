-- ===== src/Server/Fates.antt =====
-- How a process ends.
use pulsar_beam.Prelude.{
  ℕ, String, true, false, Option, none, some, ◌≡◌, ◌≢◌, ◌↔◌, refl, arith, eq_iff, Bool-cases, inl,
  inr,
}
use pulsar_beam.Prelude.Maps.{Map, lookup}
use pulsar_beam.Strings.{trim_space}
use pulsar_beam.Util.{is_broker_required, is_http_router_required, is_broker, is_valid_mode}
use pulsar_beam.Util.Modes.{padded_broker}
use pulsar_beam.Util.Settings.{Fields, init_config}
use pulsar_beam.Db.Factory.{Started, started, exited}
use pulsar_beam.Crypto.{Bytes}
use pulsar_beam.Crypto.KeyFiles
use pulsar_beam.Crypto.KeyFiles.{Loaded, loaded, RsaKeyPair}
use pulsar_beam.Server.{
  World, ended, Webhooks, WorkerPool, workers, no_channel, pool_of, process_mode, getenv, pooled,
  routed, serve, with_broker, checked, parsed, keyed, key_pair, configured, instrumented, main,
}

-- A mode that passes the check and starts nothing.
record IsIdle (mode : String) : Type 0 where
  valid : is_valid_mode mode ≡ true
  no_http : is_http_router_required mode ≡ false
  no_broker : is_broker mode ≡ false

module _ {Db : Type 0} (w : World Db) where
  pooled-ended :
      (mode : String) (fields : Fields) (hooks : Option (Webhooks Db)) (db : Option Db)
      (p : WorkerPool)
      → pooled w mode fields hooks db p ≢ ended
  unfolding pooled
  pooled-ended mode fields hooks db (workers n) h = cc
  pooled-ended mode fields hooks db no_channel h = cc

  routed-ended :
      (mode : String) (fields : Fields) (hooks : Option (Webhooks Db)) (x : Started Db × Option Db)
      → routed w mode fields hooks x ≢ ended
  unfolding routed
  routed-ended mode fields hooks (exited, conn) h = cc
  routed-ended mode fields hooks (started db, conn) h =
      pooled-ended mode fields hooks db (pool_of (lookup "WorkerPoolSize" fields)) h

  serve-ended :
      (mode : String) (fields : Fields) (hooks : Option (Webhooks Db)) (conn : Option Db)
      → serve w mode fields hooks conn ≡ ended
      → (is_http_router_required mode ≡ false) × (is_broker mode ≡ false)
  unfolding serve
  serve-ended mode fields hooks conn h = elim (Bool-cases (is_http_router_required mode)) [
    | inl http ↦ absurd (routed-ended mode fields hooks _ (rw http at h))
    | inr no_http ↦ elim (Bool-cases (is_broker mode)) [
      | inl broker ↦ cc (rw (no_http, broker) at h)
      | inr no_broker ↦ (no_http, no_broker)
    ]
  ]

  with_broker-ended :
      (mode : String) (fields : Fields) (x : Started Db × Option Db)
      → with_broker w mode fields x ≡ ended
      → (is_http_router_required mode ≡ false) × (is_broker mode ≡ false)
  unfolding with_broker
  with_broker-ended mode fields (exited, conn) h = cc
  with_broker-ended mode fields (started db, conn) h = serve-ended mode fields _ conn h

  checked-ended : (mode : String) (fields : Fields) → checked w mode fields ≡ ended → IsIdle mode
  unfolding checked
  checked-ended mode fields h = elim (Bool-cases (is_valid_mode mode)) [
    | inr invalid ↦ cc (rw invalid at h)
    | inl valid ↦ elim (Bool-cases (is_broker_required mode)) [
      | inl broker ↦
          let (a, b) = with_broker-ended mode fields _ (rw (valid, broker) at h) in
          record { valid = valid; no_http = a; no_broker = b }
      | inr no_broker ↦
          let (a, b) = serve-ended mode fields none none (rw (valid, no_broker) at h) in
          record { valid = valid; no_http = a; no_broker = b }
    ]
  ]

  -- What a start that comes to the check of the mode has.
  pub record IsSetUp (x : Option (Fields × Map String)) : Type 0 where
    pub fields : Fields
    pub env : Map String
    pub pair : RsaKeyPair Bytes Bytes
    pub read : x ≡ some (fields, env)
    pub keys : key_pair w fields ≡ loaded pair
    pub flags : w.flag_exit ≡ none

  keyed-ended :
      (mode : String) (fields : Fields) (env : Map String) (x : Loaded (RsaKeyPair Bytes Bytes))
      (code : Option ℕ)
      → key_pair w fields ≡ x
      → w.flag_exit ≡ code
      → keyed w mode fields x ≡ ended
      → IsIdle mode × IsSetUp (some (fields, env))
  unfolding keyed parsed
  keyed-ended mode fields env (loaded pair) none k f h = (
    checked-ended mode fields (rw f at h),
    record { fields = fields; env = env; pair = pair; read = refl; keys = k; flags = f },
  )
  keyed-ended mode fields env (loaded pair) (some code) k f h = absurd (cc (rw f at h))
  keyed-ended mode fields env KeyFiles.panicked code k f h = absurd cc
  keyed-ended mode fields env KeyFiles.exited code k f h = absurd cc

  configured-ended :
      (mode : String) (x : Option (Fields × Map String))
      → configured w mode x ≡ ended
      → IsIdle mode × IsSetUp x
  unfolding configured
  configured-ended mode none h = cc
  configured-ended mode (some (fields, env)) h =
      keyed-ended mode fields env (key_pair w fields) w.flag_exit refl refl h

  idle-padded : (mode : String) → IsIdle mode → (trim_space mode ≡ "broker") × (mode ≢ "broker")
  unfolding is_valid_mode is_http_router_required is_broker trim_space
  idle-padded mode idle =
      let valid = idle.valid in
      let no_http = idle.no_http in
      let no_broker = idle.no_broker in
      (ground (arith, eq_iff "broker" (trim_space mode)), ground (arith, eq_iff mode "broker"))

  -- When `main` returns.
  pub record IsPadded : Type 0 where
    pub no_agent_error : w.agent ≡ none
    pub set_up : IsSetUp (init_config w.files (getenv "PULSAR_BEAM_CONFIG" w.env) w.env)
    pub broker_mode : trim_space (process_mode w.env) ≡ "broker"
    pub padded : process_mode w.env ≢ "broker"

  instrumented-ended : (e : Option String) → w.agent ≡ e → instrumented w e ≡ ended → IsPadded
  unfolding instrumented
  instrumented-ended (some e) a h = cc
  instrumented-ended none a h =
      let (idle, found) = configured-ended (process_mode w.env) _ h in
      let (broker, padded) = idle-padded (process_mode w.env) idle in
      record { no_agent_error = a; set_up = found; broker_mode = broker; padded = padded }

  checked_padded :
      (mode : String) (fields : Fields)
      → trim_space mode ≡ "broker"
      → mode ≢ "broker"
      → checked w mode fields ≡ ended
  unfolding checked serve
  checked_padded mode fields broker padded =
      let (valid, no_broker, no_http, not_broker) = padded_broker mode broker padded in
      rw (valid, no_broker, no_http, not_broker) refl

  configured_padded :
      (mode : String) (x : Option (Fields × Map String))
      → IsSetUp x
      → trim_space mode ≡ "broker"
      → mode ≢ "broker"
      → configured w mode x ≡ ended
  unfolding configured keyed parsed
  configured_padded mode x found broker padded =
      rw (found.read, found.keys, found.flags) (checked_padded mode found.fields broker padded)

  instrumented_padded : (e : Option String) → w.agent ≡ e → IsPadded → instrumented w e ≡ ended
  unfolding instrumented
  instrumented_padded (some e) a p = let none_found = p.no_agent_error in cc
  instrumented_padded none a p =
      configured_padded (process_mode w.env) _ p.set_up p.broker_mode p.padded

  -- `main` returns exactly if the agent starts, the configuration can be read, the key pair that it
  -- names can be loaded, the flags of the command line do not end the process, and the mode is "broker"
  -- with white space around it. In every other case the process serves requests, waits for ever,
  -- panics, or is ended by an error that it logs or by its flags.
  pub main-ended_iff : (main w ≡ ended) ↔ IsPadded
  unfolding main
  main-ended_iff = (λ h. instrumented-ended w.agent refl h, λ p. instrumented_padded w.agent refl p)
