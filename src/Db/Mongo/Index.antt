-- ===== src/Db/Mongo/Index.antt =====
-- The unique index that `Init` of src/db/mongo.go creates.
use pulsar_beam.Prelude.{
  ℕ, String, Option, none, some, List, ◌∷◌, Result, ok, err, ◌≡◌, ◌≢◌, refl, All, inl, inr,
  if◌then◌else◌, ◌==◌,
}
use pulsar_beam.Platform.{Platform}
use pulsar_beam.Model.Topic.{TopicConfig}
use pulsar_beam.Db.{get_key, stamped}
use pulsar_beam.Db.Mongo.{Collection, index_key, inserted, create_at, create}
use pulsar_beam.Db.Mongo.Collections.{IsCollection}

-- What a stored document has in a field of this name: the driver stores the fields of a struct under
-- their names in small letters.
unfoldable pub bson_text : String → TopicConfig → Option String
bson_text field doc =
    if field == "key"
    then some doc.key
    else if field == "topicfullname"
    then some doc.topic_full_name
    else if field == "pulsarurl"
    then some doc.pulsar_url
    else if field == "token"
    then some doc.token
    else if field == "tenant"
    then some doc.tenant
    else if field == "notes"
    then some doc.notes
    else none

module _ {S : Type 0} (platform : Platform) (coll : Collection S) (docs : S → List TopicConfig)
    (lawful : IsCollection coll docs (bson_text index_key)) where
  alike :
      (doc first_doc : TopicConfig) (rest : List TopicConfig) (s : S)
      → docs s ≡ first_doc ∷ rest
      → ¬ All (λ old. bson_text index_key old ≢ bson_text index_key doc) (docs s)
  unfolding bson_text
  alike doc first_doc rest s h other = (rw h at other).0 refl

  no_second :
      (doc first_doc : TopicConfig) (rest : List TopicConfig) (s s' : S)
      → docs s ≡ first_doc ∷ rest
      → coll.insert_one doc s ≢ (none, s')
  no_second doc first_doc rest s s' h e =
      alike doc first_doc rest s h (lawful.inserted doc s s' e).1

  inserted_lem :
      (now : ℕ) (cfg first_doc : TopicConfig) (rest : List TopicConfig) (s : S) (key : String)
      (x : Option String × S)
      → docs s ≡ first_doc ∷ rest
      → coll.insert_one (stamped key now cfg) s ≡ x
      → (e : String) × ((inserted coll key x).0 ≡ err e) × (docs (inserted coll key x).1 ≡ docs s)
  inserted_lem now cfg first_doc rest s key (none, t) h e =
      absurd (no_second (stamped key now cfg) first_doc rest s t h e)
  inserted_lem now cfg first_doc rest s key (some bad, t) h e =
      elim (lawful.insert_failed (stamped key now cfg) s t bad e) [
        | inl kept ↦ (bad, refl, kept)
        | inr (_, none_alike) ↦ absurd (alike (stamped key now cfg) first_doc rest s h none_alike)
      ]

  create_at_lem :
      (now : ℕ) (cfg first_doc : TopicConfig) (rest : List TopicConfig) (s : S) (k : Result String)
      → docs s ≡ first_doc ∷ rest
      → (e : String) × ((create_at coll now cfg s k).0 ≡ err e)
        × (docs (create_at coll now cfg s k).1 ≡ docs s)
  create_at_lem now cfg first_doc rest s (err bad) h = (bad, refl, refl)
  create_at_lem now cfg first_doc rest s (ok key) h =
      inserted_lem now cfg first_doc rest s key (coll.insert_one (stamped key now cfg) s) h refl

  -- The index is over a field that no stored document has: as soon as one document is stored, every
  -- creation fails and changes nothing.
  pub create_second :
      (now : ℕ) (cfg first_doc : TopicConfig) (rest : List TopicConfig) (s : S)
      → docs s ≡ first_doc ∷ rest
      → (e : String) × ((create coll platform now cfg s).0 ≡ err e)
        × (docs (create coll platform now cfg s).1 ≡ docs s)
  unfolding create
  create_second now cfg first_doc rest s h =
      create_at_lem now cfg first_doc rest s (get_key platform cfg) h
