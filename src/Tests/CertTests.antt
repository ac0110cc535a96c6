-- ===== src/Tests/CertTests.antt =====
-- src/util/cert-loader.go at concrete inputs.
use pulsar_beam.Prelude.{
  ℕ, true, false, none, some, List, [], ◌∷◌, ok, err, ◌≡◌, refl, nat_eq, if◌then◌else◌,
}
use pulsar_beam.Util.Certs.{
  Loads, Store, Change, cert_changed, key_changed, Monitor, Stat, watch_file, load_cert, monitor,
  start_tls, get_certificate,
}
use pulsar_beam.Util.Certs.Reloads.{monitor-start_tls}

-- The second reading fails.
abbrev load : Loads ℕ
load n = if nat_eq n 1 then err "private key does not match public key" else ok n

abbrev empty : Store ℕ
empty = record { cert = none; loads = 0 }

abbrev first_loaded : Monitor ℕ
first_loaded = record {
  cert_updated = false;
  key_updated = false;
  store = record { cert = some 0; loads = 1 };
}

abbrev renewals : List Change
renewals = cert_changed ∷ cert_changed ∷ key_changed ∷ key_changed ∷ cert_changed ∷ []

monitor-start_tls_example :
    ((monitor load renewals first_loaded).store ≡ record { cert = some 2; loads = 3 })
    × ((c : ℕ) × (get_certificate load (monitor load renewals first_loaded).store ≡ ok c))
unfolding start_tls load_cert
monitor-start_tls_example = monitor-start_tls load renewals empty first_loaded refl

abbrev stat : ℕ → Stat
stat time = record { size = 10; mod_time = time }

watch_test :
    watch_file (stat 1) (some (stat 1) ∷ some (stat 2) ∷ none ∷ some (stat 2) ∷ [])
    ≡ false ∷ true ∷ false ∷ false ∷ []
unfolding watch_file
watch_test = refl
