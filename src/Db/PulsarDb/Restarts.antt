-- ===== src/Db/PulsarDb/Restarts.antt =====
-- What the listener makes of the topic, over all its restarts.
use pulsar_beam.Prelude.{
  String, Bool, false, ◌||◌, ◌≡◌, ◌⊎◌, refl, ◌∙◌, Option, none, some, List, [], ◌∷◌, All, inl, inr,
  arith, ◌==◌, if◌then◌else◌,
}
use pulsar_beam.Prelude.Maps.{Map, lookup, lookup-insert, lookup-delete}
use pulsar_beam.Model.Topic.{Status, deactivated, activated, suspended, deleted, TopicConfig}
use pulsar_beam.Db.PulsarDb.{Listening, no_reader, read, ListenerRun, apply_doc, recover}
use pulsar_beam.Db.PulsarDb.Listener.{documents, run_end, is_cons, db_listener_lem}

abbrev shown : Status → TopicConfig → Option TopicConfig
shown deleted d = none
shown _ d = some d

apply_as :
    (status : Status) (d : TopicConfig) (m : Map TopicConfig) (j : String)
    → d.topic_status ≡ status
    → lookup j (apply_doc d m) ≡ (if d.key == j then shown status d else lookup j m)
unfolding apply_doc
apply_as deleted d m j e = rw (e, lookup-delete) refl
apply_as activated d m j e = rw (e, lookup-insert) refl
apply_as deactivated d m j e = rw (e, lookup-insert) refl
apply_as suspended d m j e = rw (e, lookup-insert) refl

lookup-apply_doc :
    (d : TopicConfig) (m : Map TopicConfig) (j : String)
    → lookup j (apply_doc d m) ≡ (if d.key == j then shown d.topic_status d else lookup j m)
lookup-apply_doc d m j = apply_as d.topic_status d m j refl

apply_doc-twice :
    (d : TopicConfig) (m : Map TopicConfig) (j : String)
    → lookup j (apply_doc d (apply_doc d m)) ≡ lookup j (apply_doc d m)
apply_doc-twice d m j = ground (arith, lookup-apply_doc d m j, lookup-apply_doc d (apply_doc d m) j)

-- A run leaves under every key what stood there, or what the document makes of it, and waits for its
-- lock or not.
pub record IsFirst (d : TopicConfig) (topics : Map TopicConfig) (stuck : Bool) (end : ListenerRun)
    : Type 0 where
  pub shows :
      (j : String)
      → (lookup j end.topics ≡ lookup j topics)
        ⊎ (lookup j end.topics ≡ lookup j (apply_doc d topics))
  pub waits : end.is_blocked ≡ stuck

module _ {P : Type 0} (unmarshal : P → Option TopicConfig) where
  -- The first document that the run can decode, if there is one, is this one.
  abbrev BeginsWith : TopicConfig → List TopicConfig → Type 0
  BeginsWith d [] = Unit
  BeginsWith d (doc ∷ docs) = doc ≡ d

  abbrev pub IsFrom : TopicConfig → Listening P → Type 0
  IsFrom d (no_reader e) = Unit
  IsFrom d (read payloads) = BeginsWith d (documents unmarshal payloads)

  abbrev many : List TopicConfig → Bool
  many [] = false
  many (doc ∷ docs) = is_cons docs

  -- Some run reads more than one document.
  abbrev pub any_stuck : List (Listening P) → Bool
  any_stuck [] = false
  any_stuck (no_reader e ∷ runs) = any_stuck runs
  any_stuck (read payloads ∷ runs) = many (documents unmarshal payloads) || any_stuck runs

  after_one :
      (d : TopicConfig) (topics topics' : Map TopicConfig) (j : String) (x : Option TopicConfig)
      → topics' ≡ apply_doc d topics
      → (x ≡ lookup j topics') ⊎ (x ≡ lookup j (apply_doc d topics'))
      → x ≡ lookup j (apply_doc d topics)
  after_one d topics topics' j x e (inl h) = rw e at h
  after_one d topics topics' j x e (inr h) = let h' = rw e at h in h' ∙ apply_doc-twice d topics j

  module _ (d : TopicConfig) where
    step-IsFirst :
        (topics : Map TopicConfig) (docs : List TopicConfig) (runs : List (Listening P))
        (stuck : Bool)
        → BeginsWith d docs
        → ((topics' : Map TopicConfig) → IsFirst d topics' stuck (recover unmarshal runs topics'))
        → IsFirst d topics (many docs || stuck) (
            if (run_end topics docs).is_blocked
            then run_end topics docs
            else recover unmarshal runs (run_end topics docs).topics)
    step-IsFirst topics [] runs stuck b later = later topics
    step-IsFirst topics (doc ∷ []) runs stuck b later =
        let rest = later (apply_doc doc topics) in
        let same : apply_doc doc topics ≡ apply_doc d topics = rw b refl in
        record {
          shows = λ j. inr (after_one d topics (apply_doc doc topics) j _ same (rest.shows j));
          waits = rest.waits;
        }
    step-IsFirst topics (doc ∷ other ∷ docs) runs stuck b later = record {
      shows = λ j. inr (rw b refl);
      waits = refl;
    }

    -- If every run of the listener begins with the same document or reads none, then all the runs
    -- together leave under each key what stood there, or what that document makes of it, and the last
    -- run waits for its own lock for ever exactly if some run reads two documents or more.
    pub recover-IsFirst :
        (runs : List (Listening P)) (topics : Map TopicConfig)
        → All (IsFrom d) runs
        → IsFirst d topics (any_stuck runs) (recover unmarshal runs topics)
    unfolding recover
    recover-IsFirst [] topics h = record { shows = λ j. inl refl; waits = refl }
    recover-IsFirst (no_reader e ∷ runs) topics (f, h) = recover-IsFirst runs topics h
    recover-IsFirst (read payloads ∷ runs) topics (f, h) =
        rw (db_listener_lem unmarshal topics payloads) (
          step-IsFirst topics (documents unmarshal payloads) runs (any_stuck runs) f
            (λ topics'. recover-IsFirst runs topics' h))
