-- ===== src/Server/Databases.antt =====
-- The database of the broker and that of the handlers.
use pulsar_beam.Prelude.{
  ℕ, String, Option, none, some, ◌≡◌, refl, sym, ap, ◌∙◌, Bool-cases, inl, inr,
}
use pulsar_beam.Prelude.Maps.{Map, lookup}
use pulsar_beam.Util.{is_broker_required, is_http_router_required, is_broker, is_valid_mode}
use pulsar_beam.Util.Settings.{Fields, get_config}
use pulsar_beam.Db.Factory.{Started, started, exited, new_db_with_panic, new_db_with_panic-kept}
use pulsar_beam.Crypto.{Bytes}
use pulsar_beam.Crypto.KeyFiles
use pulsar_beam.Crypto.KeyFiles.{Loaded, loaded, RsaKeyPair}
use pulsar_beam.Server.{
  World, Fate, serving, Http, Webhooks, WorkerPool, workers, no_channel, pool_of, process_mode,
  pooled, routed, serve, with_broker, checked, parsed, keyed, key_pair, configured, instrumented,
  main, http_with, interval,
}

module _ {Db : Type 0} (w : World Db) where
  -- If both are started, they have one database.
  abbrev Shares : Fate Db → Type 0
  Shares x =
      (hooks : Webhooks Db) (h : Http Db) → x ≡ serving (some hooks) h → h.database ≡ hooks.database

  pooled-Shares :
      (mode : String) (fields : Fields) (b : Webhooks Db) (db : Option Db) (p : WorkerPool)
      → db ≡ b.database
      → Shares (pooled w mode fields (some b) db p)
  unfolding pooled http_with
  pooled-Shares mode fields b db (workers n) same hooks h e =
      let at_hooks : b ≡ hooks = cc in
      let at_http : http_with w mode fields db n ≡ h = cc in
      let of_http : db ≡ h.database = ap (λ x. x.database) at_http in
      sym of_http ∙ same ∙ ap (λ x. x.database) at_hooks
  pooled-Shares mode fields b db no_channel same hooks h e = cc

  alone-Shares :
      (mode : String) (fields : Fields) (db : Option Db) (p : WorkerPool)
      → Shares (pooled w mode fields none db p)
  unfolding pooled
  alone-Shares mode fields db (workers n) hooks h e = cc
  alone-Shares mode fields db no_channel hooks h e = cc

  routed-Shares :
      (mode : String) (fields : Fields) (b : Webhooks Db) (x : Started Db × Option Db)
      (conn : Option Db)
      → x ≡ (started b.database, conn)
      → Shares (routed w mode fields (some b) x)
  unfolding routed
  routed-Shares mode fields b x conn e =
      rw e (pooled-Shares mode fields b b.database (pool_of (lookup "WorkerPoolSize" fields)) refl)

  routed_alone-Shares :
      (mode : String) (fields : Fields) (x : Started Db × Option Db)
      → Shares (routed w mode fields none x)
  unfolding routed
  routed_alone-Shares mode fields (exited, conn) hooks h e = cc
  routed_alone-Shares mode fields (started db, conn) hooks h e =
      alone-Shares mode fields db (pool_of (lookup "WorkerPoolSize" fields)) hooks h e

  serve-Shares :
      (mode : String) (fields : Fields) (b : Webhooks Db) (conn : Option Db)
      → new_db_with_panic (w.drivers fields) (get_config fields).pb_db_type conn
        ≡ (started b.database, conn)
      → Shares (serve w mode fields (some b) conn)
  unfolding serve
  serve-Shares mode fields b conn kept hooks h e =
      elim (Bool-cases (is_http_router_required mode)) [
        | inl http ↦ routed-Shares mode fields b _ conn kept hooks h (rw http at e)
        | inr no_http ↦ elim (Bool-cases (is_broker mode)) [
          | inl broker ↦ cc (rw (no_http, broker) at e)
          | inr no_broker ↦ cc (rw (no_http, no_broker) at e)
        ]
      ]

  serve_alone-Shares :
      (mode : String) (fields : Fields) (conn : Option Db) → Shares (serve w mode fields none conn)
  unfolding serve
  serve_alone-Shares mode fields conn hooks h e = elim (Bool-cases (is_http_router_required mode)) [
    | inl http ↦ routed_alone-Shares mode fields _ hooks h (rw http at e)
    | inr no_http ↦ elim (Bool-cases (is_broker mode)) [
      | inl broker ↦ cc (rw (no_http, broker) at e)
      | inr no_broker ↦ cc (rw (no_http, no_broker) at e)
    ]
  ]

  with_broker-Shares :
      (mode : String) (fields : Fields) (x : Started Db × Option Db)
      → new_db_with_panic (w.drivers fields) (get_config fields).pb_db_type none ≡ x
      → Shares (with_broker w mode fields x)
  unfolding with_broker
  with_broker-Shares mode fields (exited, conn) made hooks h e = cc
  with_broker-Shares mode fields (started db, conn) made hooks h e =
      let type = (get_config fields).pb_db_type in
      serve-Shares mode fields (record { database = db; timer = interval w fields }) conn
        (new_db_with_panic-kept (w.drivers fields) type type none db conn made) hooks h e

  checked-Shares : (mode : String) (fields : Fields) → Shares (checked w mode fields)
  unfolding checked
  checked-Shares mode fields hooks h e = elim (Bool-cases (is_valid_mode mode)) [
    | inr invalid ↦ cc (rw invalid at e)
    | inl valid ↦ elim (Bool-cases (is_broker_required mode)) [
      | inl broker ↦ with_broker-Shares mode fields _ refl hooks h (rw (valid, broker) at e)
      | inr no_broker ↦ serve_alone-Shares mode fields none hooks h (rw (valid, no_broker) at e)
    ]
  ]

  keyed-Shares :
      (mode : String) (fields : Fields) (x : Loaded (RsaKeyPair Bytes Bytes)) (code : Option ℕ)
      → w.flag_exit ≡ code
      → Shares (keyed w mode fields x)
  unfolding keyed parsed
  keyed-Shares mode fields (loaded pair) none f hooks h e =
      checked-Shares mode fields hooks h (rw f at e)
  keyed-Shares mode fields (loaded pair) (some code) f hooks h e = cc (rw f at e)
  keyed-Shares mode fields KeyFiles.panicked code f hooks h e = cc
  keyed-Shares mode fields KeyFiles.exited code f hooks h e = cc

  configured-Shares :
      (mode : String) (x : Option (Fields × Map String)) → Shares (configured w mode x)
  unfolding configured
  configured-Shares mode none hooks h e = cc
  configured-Shares mode (some (fields, env)) hooks h e =
      keyed-Shares mode fields (key_pair w fields) w.flag_exit refl hooks h e

  instrumented-Shares : (e : Option String) → Shares (instrumented w e)
  unfolding instrumented
  instrumented-Shares (some e) hooks h q = cc
  instrumented-Shares none hooks h q = configured-Shares (process_mode w.env) _ hooks h q

  -- If a process runs the webhook broker and the server, both have one database, whichever it is: what
  -- the handlers store is what the broker loads.
  pub main-shared :
      (hooks : Webhooks Db) (h : Http Db)
      → main w ≡ serving (some hooks) h
      → h.database ≡ hooks.database
  unfolding main Shares
  main-shared hooks h e = instrumented-Shares w.agent hooks h e
