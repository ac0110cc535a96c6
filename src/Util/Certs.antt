-- ===== src/Util/Certs.antt =====
-- src/util/cert-loader.go: the certificate that the server shows, and when it is read again.
pub mod Reloads
use Prim.Native.String.{len}
use pulsar_beam.Prelude.{
  ℕ, suc, String, Bool, true, false, not, ◌&&◌, ◌||◌, Option, none, some, List, [], ◌∷◌, Result, ok,
  err, ltb, nat_eq, if◌then◌else◌,
}
use pulsar_beam.Prelude.Int.{ℤ}

-- `tls.LoadX509KeyPair`, by the number of the call: the files change with time.
abbrev pub Loads : Type 0 → Type 0
Loads Cert = ℕ → Result Cert

-- The variable `cert`, and how often the files were read.
pub record Store (Cert : Type 0) : Type 0 where
  pub cert : Option Cert
  pub loads : ℕ

-- What a watch of a file reports, and the variables of the goroutine that waits for both.
pub data Change : Type 0 where
  cert_changed key_changed : Change

pub record Monitor (Cert : Type 0) : Type 0 where
  pub cert_updated : Bool
  pub key_updated : Bool
  pub store : Store Cert

pub record Stat : Type 0 where
  pub size : ℕ
  pub mod_time : ℕ

abbrev same_stat : Stat → Stat → Bool
same_stat a b = nat_eq a.size b.size && nat_eq a.mod_time b.mod_time

abbrev watch_one : Stat → Option Stat → Stat × Bool
watch_one initial none = (initial, false)
watch_one initial (some stat) = if same_stat stat initial then (initial, false) else (stat, true)

-- The loop of `watchFile` over what `os.Stat` gives at each tick; which ticks report a change.
unfoldable pub watch_file : Stat → List (Option Stat) → List Bool
watch_file initial [] = []
watch_file initial (tick ∷ ticks) =
    let (stat, changed) = watch_one initial tick in changed ∷ watch_file stat ticks

module _ {Cert : Type 0} (load : Loads Cert) where
  abbrev pub stored : Store Cert → Result Cert → Option String × Store Cert
  stored s (err e) = (some e, record s { loads = suc s.loads })
  stored s (ok c) = (none, record { cert = some c; loads = suc s.loads })

  unfoldable pub load_cert : Store Cert → Option String × Store Cert
  load_cert s = stored s (load s.loads)

  abbrev both_updated : Bool → Bool → Store Cert → Monitor Cert
  both_updated true true s = record {
    cert_updated = false;
    key_updated = false;
    store = (load_cert s).1;
  }
  both_updated c k s = record { cert_updated = c; key_updated = k; store = s }

  -- The body of the loop over the two channels.
  unfoldable pub receive_change : Change → Monitor Cert → Monitor Cert
  unfolding load_cert
  receive_change cert_changed m = both_updated true m.key_updated m.store
  receive_change key_changed m = both_updated m.cert_updated true m.store

  unfoldable pub monitor : List Change → Monitor Cert → Monitor Cert
  unfolding receive_change
  monitor [] m = m
  monitor (change ∷ changes) m = monitor changes (receive_change change m)

  abbrev pub started : Option String × Store Cert → Result (Monitor Cert)
  started (some e, s) = err e
  started (none, s) = ok (record { cert_updated = false; key_updated = false; store = s })

  -- `listenAndServeTLS` up to where it listens.
  unfoldable pub start_tls : Store Cert → Result (Monitor Cert)
  unfolding load_cert
  start_tls s = started (load_cert s)

  unfoldable pub get_certificate : Store Cert → Result Cert
  get_certificate s = elim s.cert [ none ↦ err "Unable to load cert" | some c ↦ ok c ]

-- Whether `ListenAndServeTLS` serves with TLS.
unfoldable pub is_tls : String → String → Bool
is_tls cert_file key_file = ltb 1 (len cert_file) && ltb 1 (len key_file)
