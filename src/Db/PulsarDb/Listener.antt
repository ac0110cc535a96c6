-- ===== src/Db/PulsarDb/Listener.antt =====
-- What a run of `dbListener` can apply before it waits for its own lock.
use pulsar_beam.Prelude.{
  Bool, true, false, ◌≡◌, refl, Option-cases, inl, inr, Option, none, some, List, [], ◌∷◌,
}
use pulsar_beam.Prelude.Maps.{Map}
use pulsar_beam.Model.Topic.{TopicConfig}
use pulsar_beam.Db.PulsarDb.{ListenerRun, apply_doc, receive, db_listener, new_run}

abbrev cons_some : Option TopicConfig → List TopicConfig → List TopicConfig
cons_some none docs = docs
cons_some (some doc) docs = doc ∷ docs

abbrev pub is_cons : List TopicConfig → Bool
is_cons [] = false
is_cons (_ ∷ _) = true

-- The documents among the payloads, in order.
abbrev pub documents : {P : Type 0} → (P → Option TopicConfig) → List P → List TopicConfig
documents unmarshal [] = []
documents unmarshal (payload ∷ payloads) =
    cons_some (unmarshal payload) (documents unmarshal payloads)

-- The end of a run over some documents.
abbrev pub run_end : Map TopicConfig → List TopicConfig → ListenerRun
run_end topics [] = new_run topics
run_end topics (doc ∷ docs) = record {
  topics = apply_doc doc topics;
  holds_lock = true;
  is_blocked = is_cons docs;
}

module _ {P : Type 0} (unmarshal : P → Option TopicConfig) where
  listen_blocked :
      (topics : Map TopicConfig) (payloads : List P)
      → db_listener unmarshal payloads
          (record { topics = topics; holds_lock = true; is_blocked = true })
        ≡ record { topics = topics; holds_lock = true; is_blocked = true }
  unfolding db_listener
  listen_blocked topics [] = refl
  listen_blocked topics (payload ∷ payloads) = refl

  -- A run that holds the lock stops at the next document.
  listen_locked :
      (topics : Map TopicConfig) (payloads : List P)
      → db_listener unmarshal payloads
          (record { topics = topics; holds_lock = true; is_blocked = false })
        ≡ record {
          topics = topics;
          holds_lock = true;
          is_blocked = is_cons (documents unmarshal payloads);
        }
  unfolding db_listener receive
  listen_locked topics [] = refl
  listen_locked topics (payload ∷ payloads) = elim (Option-cases (unmarshal payload)) [
    | inl e ↦ rw e (listen_locked topics payloads)
    | inr (doc, e) ↦ rw e (listen_blocked topics payloads)
  ]

  -- A run applies the first document that it can decode, and no other: it comes to a second one
  -- with the lock in its own hand, and waits for ever.
  pub db_listener_lem :
      (topics : Map TopicConfig) (payloads : List P)
      → db_listener unmarshal payloads (new_run topics)
        ≡ run_end topics (documents unmarshal payloads)
  unfolding db_listener receive
  db_listener_lem topics [] = refl
  db_listener_lem topics (payload ∷ payloads) = elim (Option-cases (unmarshal payload)) [
    | inl e ↦ rw e (db_listener_lem topics payloads)
    | inr (doc, e) ↦ rw e (listen_locked (apply_doc doc topics) payloads)
  ]
