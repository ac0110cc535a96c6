-- ===== src/Util/Certs/Reloads.antt =====
-- When the files are read again, and which pair is shown.
use pulsar_beam.Prelude.{
  ℕ, zero, suc, true, false, Option, none, some, List, [], ◌∷◌, Result, ok, err, ◌≡◌, refl,
  Result-cases, inl, inr,
}
use pulsar_beam.Util.Certs.{
  Loads, Store, Change, cert_changed, key_changed, Monitor, stored, started, load_cert,
  receive_change, monitor, start_tls, get_certificate,
}

-- How often both files have changed, from when one of them has, or none.
abbrev pub pairs : Option Change → List Change → ℕ
pairs waiting [] = 0
pairs none (c ∷ changes) = pairs (some c) changes
pairs (some cert_changed) (cert_changed ∷ changes) = pairs (some cert_changed) changes
pairs (some cert_changed) (key_changed ∷ changes) = suc (pairs none changes)
pairs (some key_changed) (key_changed ∷ changes) = pairs (some key_changed) changes
pairs (some key_changed) (cert_changed ∷ changes) = suc (pairs none changes)

module _ {Cert : Type 0} (load : Loads Cert) where
  -- The newest pair that could be read, after so many readings.
  abbrev newer : Option Cert → Result Cert → Option Cert
  newer old (err e) = old
  newer old (ok c) = some c

  abbrev pub newest : ℕ → Store Cert → Store Cert
  newest zero s = s
  newest (suc n) s = newest n (record { cert = newer s.cert (load s.loads); loads = suc s.loads })

  abbrev waiting_for : Option Change → Store Cert → Monitor Cert
  waiting_for none s = record { cert_updated = false; key_updated = false; store = s }
  waiting_for (some cert_changed) s = record { cert_updated = true; key_updated = false; store = s }
  waiting_for (some key_changed) s = record { cert_updated = false; key_updated = true; store = s }

  load_cert-newest : (s : Store Cert) → (load_cert load s).1 ≡ newest 1 s
  unfolding load_cert
  load_cert-newest s = stored_lem (load s.loads)
    where
      stored_lem :
          (r : Result Cert)
          → (stored load s r).1 ≡ record { cert = newer s.cert r; loads = suc s.loads }
      stored_lem (ok c) = refl
      stored_lem (err e) = refl

  monitor-newest :
      (waiting : Option Change) (changes : List Change) (s : Store Cert)
      → (monitor load changes (waiting_for waiting s)).store ≡ newest (pairs waiting changes) s
  unfolding monitor receive_change
  monitor-newest none [] s = refl
  monitor-newest (some cert_changed) [] s = refl
  monitor-newest (some key_changed) [] s = refl
  monitor-newest none (cert_changed ∷ changes) s = monitor-newest (some cert_changed) changes s
  monitor-newest none (key_changed ∷ changes) s = monitor-newest (some key_changed) changes s
  monitor-newest (some cert_changed) (cert_changed ∷ changes) s =
      monitor-newest (some cert_changed) changes s
  monitor-newest (some cert_changed) (key_changed ∷ changes) s =
      rw (load_cert-newest s, monitor) (monitor-newest none changes (newest 1 s))
  monitor-newest (some key_changed) (key_changed ∷ changes) s =
      monitor-newest (some key_changed) changes s
  monitor-newest (some key_changed) (cert_changed ∷ changes) s =
      rw (load_cert-newest s, monitor) (monitor-newest none changes (newest 1 s))

  shown :
      (n : ℕ) (s : Store Cert) (c : Cert)
      → s.cert ≡ some c
      → (last : Cert) × (get_certificate load (newest n s) ≡ ok last)
  unfolding get_certificate
  shown zero s c h = (c, rw h refl)
  shown (suc n) s c h = elim (Result-cases (load s.loads)) [
    | inl (d, e) ↦ rw e (shown n (record { cert = some d; loads = suc s.loads }) d refl)
    | inr (bad, e) ↦ rw e (shown n (record { cert = s.cert; loads = suc s.loads }) c h)
  ]

  started_served :
      (changes : List Change) (s : Store Cert) (m : Monitor Cert) (r : Result Cert)
      → load s.loads ≡ r
      → started load (stored load s r) ≡ ok m
      → ((monitor load changes m).store ≡ newest (suc (pairs none changes)) s)
        × ((c : Cert) × (get_certificate load (monitor load changes m).store ≡ ok c))
  started_served changes s m (err e) l h = cc
  started_served changes s m (ok c) l h =
      let first : Store Cert = record { cert = some c; loads = suc s.loads } in
      let e : waiting_for none first ≡ m = cc in
      let after : (monitor load changes m).store ≡ newest (pairs none changes) first =
        rw (← e) (monitor-newest none changes first) in
      (rw (after, l, newest) refl, rw after (shown (pairs none changes) first c refl))

  -- Once the server has started with TLS, the files are read again each time that both have changed
  -- since they were read last, and a client is always shown a certificate: the newest one that could
  -- be read.
  pub monitor-start_tls :
      (changes : List Change) (s : Store Cert) (m : Monitor Cert)
      → start_tls load s ≡ ok m
      → ((monitor load changes m).store ≡ newest (suc (pairs none changes)) s)
        × ((c : Cert) × (get_certificate load (monitor load changes m).store ≡ ok c))
  unfolding start_tls load_cert
  monitor-start_tls changes s m h = started_served changes s m (load s.loads) refl h
