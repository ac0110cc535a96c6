-- ===== src/Db/Factory.antt =====
-- src/db/interface.go: the choice of the database.
use pulsar_beam.Prelude.{
  Bool, true, false, String, Option, none, some, ◌==◌, ◌≡◌, ◌∙◌, sym, refl, Option-cases, inl, inr,
}

-- The constructors of the drivers, each of which returns its object beside its error.
pub record Drivers (Db : Type 0) : Type 0 where
  pub new_mongo_db : Db × Option String
  pub new_pulsar_handler : Db × Option String
  pub new_in_memory_handler : Db × Option String

-- The database that is returned, the error, and the package's variable `dbConn` afterwards.
pub record Connected (Db : Type 0) : Type 0 where
  pub db : Option Db
  pub error : Option String
  pub db_conn : Option Db

pub data Started (Db : Type 0) : Type 0 where
  started : Option Db → Started Db
  exited : Started Db

module _ {Db : Type 0} (drivers : Drivers Db) where
  abbrev pub connected : Db × Option String → Connected Db
  connected (db, error) = record { db = some db; error = error; db_conn = some db }

  abbrev pub chosen : Bool → Bool → Bool → Connected Db
  chosen true is_pulsar is_memory = connected drivers.new_mongo_db
  chosen false true is_memory = connected drivers.new_pulsar_handler
  chosen false false true = connected drivers.new_in_memory_handler
  chosen false false false = record {
    db = none;
    error = some "unsupported db type";
    db_conn = none;
  }

  unfoldable pub new_db : String → Option Db → Connected Db
  new_db req_db_type (some db) = record { db = some db; error = none; db_conn = some db }
  new_db req_db_type none =
      chosen (req_db_type == "mongo") (req_db_type == "pulsarAsDb") (req_db_type == "inmemory")

  abbrev pub or_exit : Connected Db → Started Db × Option Db
  or_exit c = elim c.error [ none ↦ (started c.db, c.db_conn) | some e ↦ (exited, c.db_conn) ]

  unfoldable pub new_db_with_panic : String → Option Db → Started Db × Option Db
  unfolding new_db
  new_db_with_panic req_db_type db_conn = or_exit (new_db req_db_type db_conn)

  chosen-kept : (m p i : Bool) → (chosen m p i).db_conn ≡ (chosen m p i).db
  chosen-kept true p i = refl
  chosen-kept false true i = refl
  chosen-kept false false true = refl
  chosen-kept false false false = refl

  -- Whatever database was made first, even one whose start has failed, is returned by every later
  -- request, without an error, and whichever type that asks for.
  pub new_db-kept :
      (req_db_type later : String) (db_conn : Option Db) (db : Db)
      → (new_db req_db_type db_conn).db ≡ some db
      → new_db later (new_db req_db_type db_conn).db_conn
        ≡ record { db = some db; error = none; db_conn = some db }
  unfolding new_db
  new_db-kept req_db_type later (some made) db h = rw h refl
  new_db-kept req_db_type later none db h =
      rw
        (
          chosen-kept (req_db_type == "mongo") (req_db_type == "pulsarAsDb")
              (req_db_type == "inmemory"),
          h,
        )
        refl

  -- Where there is no error, there is a database, and the variable holds it.
  abbrev pub IsHeld : Connected Db → Type 0
  IsHeld c = c.error ≡ none → (d : Db) × (c.db ≡ some d) × (c.db_conn ≡ some d)

  connected-IsHeld : (made : Db × Option String) → IsHeld (connected made)
  connected-IsHeld (d, e) h = (d, refl, refl)

  chosen-IsHeld : (m p i : Bool) → IsHeld (chosen m p i)
  chosen-IsHeld true p i = connected-IsHeld drivers.new_mongo_db
  chosen-IsHeld false true i = connected-IsHeld drivers.new_pulsar_handler
  chosen-IsHeld false false true = connected-IsHeld drivers.new_in_memory_handler
  chosen-IsHeld false false false = λ h. cc

  pub new_db-IsHeld :
      (req_db_type : String) (db_conn : Option Db) → IsHeld (new_db req_db_type db_conn)
  unfolding new_db
  new_db-IsHeld req_db_type none =
      chosen-IsHeld (req_db_type == "mongo") (req_db_type == "pulsarAsDb")
        (req_db_type == "inmemory")
  new_db-IsHeld req_db_type (some d) = λ h. (d, refl, refl)

  pub or_exit-eq-started :
      (c : Connected Db) (db conn : Option Db)
      → IsHeld c
      → or_exit c ≡ (started db, conn)
      → (d : Db) × (c.error ≡ none) × (c.db ≡ some d) × (db ≡ some d) × (conn ≡ some d)
  or_exit-eq-started c db conn held h = elim (Option-cases c.error) [
    | inl fine ↦
        let (d, at_db, at_conn) = held fine in
        let outcome : (started c.db, c.db_conn) ≡ (started db, conn) = rw fine at h in
        let same : c.db ≡ db = cc in
        let same' : c.db_conn ≡ conn = cc in (d, fine, at_db, sym same ∙ at_db, sym same' ∙ at_conn)
    | inr (e, failed) ↦ cc (rw failed at h)
  ]

  -- Once a database has been started, every later request returns the same.
  pub new_db_with_panic-kept :
      (req_db_type later : String) (db_conn db conn : Option Db)
      → new_db_with_panic req_db_type db_conn ≡ (started db, conn)
      → new_db_with_panic later conn ≡ (started db, conn)
  unfolding new_db_with_panic new_db
  new_db_with_panic-kept req_db_type later db_conn db conn h =
      let (d, _, _, at_db, at_conn) =
        or_exit-eq-started (new_db req_db_type db_conn) db conn (new_db-IsHeld req_db_type db_conn)
          h in
      rw (at_db, at_conn) refl
