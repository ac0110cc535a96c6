-- ===== src/Server/Connections.antt =====
-- A server that runs has a database that has been reached.
pub mod Reached
use pulsar_beam.Prelude.{
  ℕ, String, Bool, true, false, Option, none, some, ◌≡◌, ◌≢◌, refl, sym, ap, ◌∙◌, ◌==◌, Bool-cases,
  Option-cases, inl, inr, if◌then◌else◌,
}
use pulsar_beam.Prelude.Maps.{Map, lookup}
use pulsar_beam.Util.{is_broker_required, is_http_router_required, is_broker, is_valid_mode}
use pulsar_beam.Util.Settings.{Fields, get_config, init_config}
use pulsar_beam.Db.Factory.{
  Drivers, Connected, connected, chosen, or_exit, new_db, IsHeld, new_db-IsHeld, or_exit-eq-started,
  Started, started, exited, new_db_with_panic,
}
use pulsar_beam.Crypto.{Bytes}
use pulsar_beam.Crypto.KeyFiles
use pulsar_beam.Crypto.KeyFiles.{Loaded, loaded, RsaKeyPair}
use pulsar_beam.Server.{
  World, Fate, serving, Http, Webhooks, WorkerPool, workers, no_channel, pool_of, process_mode,
  getenv, pooled, routed, serve, with_broker, checked, parsed, keyed, key_pair, configured,
  instrumented, main, http_with, interval,
}

module _ {Db : Type 0} (P : Db → Type 0) where
  -- What a driver's constructor returns without an error has the property.
  pub record IsReliable (drivers : Drivers Db) : Type 0 where
    pub mongo : (d : Db) → drivers.new_mongo_db ≡ (d, none) → P d
    pub pulsar : (d : Db) → drivers.new_pulsar_handler ≡ (d, none) → P d
    pub memory : (d : Db) → drivers.new_in_memory_handler ≡ (d, none) → P d

  -- The variable `dbConn` is empty, or what it holds has the property.
  abbrev pub Holds : Option Db → Type 0
  Holds none = Unit
  Holds (some d) = P d

  -- There is a database, and it has the property.
  pub record IsServing (db : Option Db) : Type 0 where
    pub database : Db
    pub is_some : db ≡ some database
    pub has_property : P database

  connected_P :
      (made : Db × Option String) (drivers : Drivers Db) (d : Db)
      → ((d : Db) → made ≡ (d, none) → P d)
      → (connected drivers made).error ≡ none
      → (connected drivers made).db ≡ some d
      → P d
  connected_P (made, e) drivers d good fine h = good d cc

  chosen_P :
      (drivers : Drivers Db) (m p i : Bool) (d : Db)
      → IsReliable drivers
      → (chosen drivers m p i).error ≡ none
      → (chosen drivers m p i).db ≡ some d
      → P d
  chosen_P drivers true p i d r = connected_P drivers.new_mongo_db drivers d r.mongo
  chosen_P drivers false true i d r = connected_P drivers.new_pulsar_handler drivers d r.pulsar
  chosen_P drivers false false true d r =
      connected_P drivers.new_in_memory_handler drivers d r.memory
  chosen_P drivers false false false d r = λ fine h. cc

  new_db_P :
      (drivers : Drivers Db) (type : String) (conn : Option Db) (d : Db)
      → IsReliable drivers
      → Holds conn
      → (new_db drivers type conn).error ≡ none
      → (new_db drivers type conn).db ≡ some d
      → P d
  unfolding new_db
  new_db_P drivers type none d r h =
      chosen_P drivers (type == "mongo") (type == "pulsarAsDb") (type == "inmemory") d r
  new_db_P drivers type (some held) d r h = λ fine e. let same : held ≡ d = cc in rw (← same) h

  new_db_with_panic-IsServing :
      (drivers : Drivers Db) (type : String) (conn db conn' : Option Db)
      → IsReliable drivers
      → Holds conn
      → new_db_with_panic drivers type conn ≡ (started db, conn')
      → IsServing db × Holds conn'
  unfolding new_db_with_panic
  new_db_with_panic-IsServing drivers type conn db conn' r h e =
      let made = new_db drivers type conn in
      let (d, fine, at_made, at_db, at_conn) =
        or_exit-eq-started drivers made db conn' (new_db-IsHeld drivers type conn) e in
      let good = new_db_P drivers type conn d r h fine at_made in
      (record { database = d; is_some = at_db; has_property = good }, rw at_conn good)

  module _ (w : World Db) (reliable : (fields : Fields) → IsReliable (w.drivers fields)) where
    -- A fate in which the server runs has such a database.
    abbrev pub Reaches : Fate Db → Type 0
    Reaches x =
        (hooks : Option (Webhooks Db)) (h : Http Db) → x ≡ serving hooks h → IsServing h.database

    pooled-Reaches :
        (mode : String) (fields : Fields) (b : Option (Webhooks Db)) (db : Option Db)
        (p : WorkerPool)
        → IsServing db
        → Reaches (pooled w mode fields b db p)
    unfolding pooled http_with
    pooled-Reaches mode fields b db (workers n) s hooks h e =
        let at_http : http_with w mode fields db n ≡ h = cc in
        let of_http : db ≡ h.database = ap (λ x. x.database) at_http in rw of_http at s
    pooled-Reaches mode fields b db no_channel s hooks h e = cc

    routed-Reaches :
        (mode : String) (fields : Fields) (b : Option (Webhooks Db)) (x : Started Db × Option Db)
        (conn : Option Db)
        → Holds conn
        → new_db_with_panic (w.drivers fields) (get_config fields).pb_db_type conn ≡ x
        → Reaches (routed w mode fields b x)
    unfolding routed
    routed-Reaches mode fields b (exited, conn') conn held made = λ hooks h e. cc
    routed-Reaches mode fields b (started db, conn') conn held made =
        let (serves, _) =
          new_db_with_panic-IsServing (w.drivers fields) (get_config fields).pb_db_type conn db
            conn' (reliable fields) held made in
        pooled-Reaches mode fields b db (pool_of (lookup "WorkerPoolSize" fields)) serves

    serve-Reaches :
        (mode : String) (fields : Fields) (b : Option (Webhooks Db)) (conn : Option Db)
        → Holds conn
        → Reaches (serve w mode fields b conn)
    unfolding serve
    serve-Reaches mode fields b conn held hooks h e =
        elim (Bool-cases (is_http_router_required mode)) [
          | inl http ↦ routed-Reaches mode fields b _ conn held refl hooks h (rw http at e)
          | inr no_http ↦ elim (Bool-cases (is_broker mode)) [
            | inl broker ↦ absurd (cc (rw (no_http, broker) at e))
            | inr no_broker ↦ absurd (cc (rw (no_http, no_broker) at e))
          ]
        ]

    with_broker-Reaches :
        (mode : String) (fields : Fields) (x : Started Db × Option Db)
        → new_db_with_panic (w.drivers fields) (get_config fields).pb_db_type none ≡ x
        → Reaches (with_broker w mode fields x)
    unfolding with_broker
    with_broker-Reaches mode fields (exited, conn) made = λ hooks h e. cc
    with_broker-Reaches mode fields (started db, conn) made =
        let (_, held) =
          new_db_with_panic-IsServing (w.drivers fields) (get_config fields).pb_db_type none db conn
            (reliable fields) tt made in
        serve-Reaches mode fields _ conn held

    checked-Reaches : (mode : String) (fields : Fields) → Reaches (checked w mode fields)
    unfolding checked
    checked-Reaches mode fields hooks h e = elim (Bool-cases (is_valid_mode mode)) [
      | inr invalid ↦ absurd (cc (rw invalid at e))
      | inl valid ↦ elim (Bool-cases (is_broker_required mode)) [
        | inl broker ↦ with_broker-Reaches mode fields _ refl hooks h (rw (valid, broker) at e)
        | inr no_broker ↦
            serve-Reaches mode fields none none tt hooks h (rw (valid, no_broker) at e)
      ]
    ]

    keyed-Reaches :
        (mode : String) (fields : Fields) (x : Loaded (RsaKeyPair Bytes Bytes)) (code : Option ℕ)
        → w.flag_exit ≡ code
        → Reaches (keyed w mode fields x)
    unfolding keyed parsed
    keyed-Reaches mode fields (loaded pair) none f hooks h e =
        checked-Reaches mode fields hooks h (rw f at e)
    keyed-Reaches mode fields (loaded pair) (some code) f hooks h e = absurd (cc (rw f at e))
    keyed-Reaches mode fields KeyFiles.panicked code f hooks h e = absurd cc
    keyed-Reaches mode fields KeyFiles.exited code f hooks h e = absurd cc

    configured-Reaches :
        (mode : String) (x : Option (Fields × Map String)) → Reaches (configured w mode x)
    unfolding configured
    configured-Reaches mode none hooks h e = cc
    configured-Reaches mode (some (fields, env)) hooks h e =
        keyed-Reaches mode fields (key_pair w fields) w.flag_exit refl hooks h e

    instrumented-Reaches : (e : Option String) → Reaches (instrumented w e)
    unfolding instrumented
    instrumented-Reaches (some e) = λ hooks h q. cc
    instrumented-Reaches none = configured-Reaches (process_mode w.env) _

    -- If the constructors of the drivers keep a property wherever they give no error, a process that
    -- serves has a database with it.
    pub main-Reaches : Reaches (main w)
    unfolding main Reaches
    main-Reaches = instrumented-Reaches w.agent
