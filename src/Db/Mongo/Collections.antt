-- ===== src/Db/Mongo/Collections.antt =====
-- What MongoDB documents of a collection: its operations act on a list of documents.
use pulsar_beam.Prelude.{
  ℕ, suc, String, Option, none, some, List, [], ◌∷◌, ◌++◌, ok, err, ◌≡◌, ◌≢◌, ◌⊎◌, refl, All,
  if◌then◌else◌, ◌==◌, arith, eq_iff, false, sym, ◌∙◌,
}
use pulsar_beam.Model.Topic.{TopicConfig}
use pulsar_beam.Db.Mongo.{Changes, Collection, no_documents}

-- The first document under a key.
unfoldable pub first : String → List TopicConfig → Option TopicConfig
first key [] = none
first key (doc ∷ docs) = let later = first key docs in if doc.key == key then some doc else later

abbrev pub set_fields : Changes → TopicConfig → TopicConfig
set_fields changes doc = record doc {
  token = changes.token;
  tenant = changes.tenant;
  notes = changes.notes;
  topic_status = changes.topic_status;
  updated_at = changes.updated_at;
  webhooks = changes.webhooks;
}

unfoldable pub set_first : String → Changes → List TopicConfig → List TopicConfig
set_first key changes [] = []
set_first key changes (doc ∷ docs) =
    let rest = set_first key changes docs in
    if doc.key == key then set_fields changes doc ∷ docs else doc ∷ rest

unfoldable pub without : String → List TopicConfig → List TopicConfig
without key [] = []
without key (doc ∷ docs) =
    let rest = without key docs in if doc.key == key then rest else doc ∷ rest

unfoldable pub count : String → List TopicConfig → ℕ
count key [] = 0
count key (doc ∷ docs) = let rest = count key docs in if doc.key == key then suc rest else rest

abbrev pub or_else : Option TopicConfig → Option TopicConfig → Option TopicConfig
or_else (some a) b = some a
or_else none b = b

-- `indexed` is what a document has in the field of the unique index: MongoDB takes a missing field
-- for a value of its own, which no second document may have. A document is put behind the others only
-- where no other has its value.
abbrev pub Appended :
    (TopicConfig → Option String) → TopicConfig → List TopicConfig → List TopicConfig → Type 0
Appended indexed doc docs docs' =
    (docs' ≡ docs ++ (doc ∷ [])) × All (λ old. indexed old ≢ indexed doc) docs

-- An error does not undo what the server has written: after one, an insertion or an update may have
-- been done or not, and a deletion may have been done in part.
pub record IsCollection {S : Type 0} (coll : Collection S) (docs : S → List TopicConfig)
    (indexed : TopicConfig → Option String) : Type 0 where
  pub found :
      (key : String) (s : S) (doc : TopicConfig)
      → coll.find_one key s ≡ ok doc
      → first key (docs s) ≡ some doc
  pub missing :
      (key : String) (s : S) → coll.find_one key s ≡ err no_documents → first key (docs s) ≡ none
  pub inserted :
      (doc : TopicConfig) (s s' : S)
      → coll.insert_one doc s ≡ (none, s')
      → Appended indexed doc (docs s) (docs s')
  pub insert_failed :
      (doc : TopicConfig) (s s' : S) (e : String)
      → coll.insert_one doc s ≡ (some e, s')
      → (docs s' ≡ docs s) ⊎ Appended indexed doc (docs s) (docs s')
  pub updated :
      (key : String) (changes : Changes) (s s' : S)
      → coll.update_one key changes s ≡ (none, s')
      → docs s' ≡ set_first key changes (docs s)
  pub update_failed :
      (key : String) (changes : Changes) (s s' : S) (e : String)
      → coll.update_one key changes s ≡ (some e, s')
      → (docs s' ≡ docs s) ⊎ (docs s' ≡ set_first key changes (docs s))
  pub removed :
      (key : String) (n : ℕ) (s s' : S)
      → coll.delete_many key s ≡ (ok n, s')
      → (docs s' ≡ without key (docs s)) × (n ≡ count key (docs s))
  pub remove_failed :
      (key e : String) (s s' : S)
      → coll.delete_many key s ≡ (err e, s')
      → without key (docs s') ≡ without key (docs s)

pub first-append :
    (key : String) (doc : TopicConfig) (docs : List TopicConfig)
    → first key (docs ++ (doc ∷ []))
      ≡ or_else (first key docs) (if doc.key == key then some doc else none)
unfolding first
first-append key doc [] = refl
first-append key doc (d ∷ docs) = ground (arith, first-append key doc docs, eq_iff d.key key)

pub first-set_first :
    (key j : String) (changes : Changes) (old : TopicConfig) (docs : List TopicConfig)
    → first key docs ≡ some old
    → first j (set_first key changes docs)
      ≡ (if key == j then some (set_fields changes old) else first j docs)
unfolding first set_first
first-set_first key j changes old [] h = cc
first-set_first key j changes old (d ∷ docs) h =
    ground (
      arith,
      first-set_first key j changes old docs,
      eq_iff d.key key,
      eq_iff d.key j,
      eq_iff key j,
    )

pub first-without :
    (key j : String) (docs : List TopicConfig)
    → first j (without key docs) ≡ (if key == j then none else first j docs)
unfolding first without
first-without key j [] = ground arith
first-without key j (d ∷ docs) =
    ground (arith, first-without key j docs, eq_iff d.key key, eq_iff d.key j, eq_iff key j)

-- Lists with the same documents under the other keys show the same there.
pub first-eq-without :
    (key j : String) (docs docs' : List TopicConfig)
    → without key docs' ≡ without key docs
    → (key == j) ≡ false
    → first j docs' ≡ first j docs
first-eq-without key j docs docs' same other =
    let old = rw other at (first-without key j docs) in
    let new = rw other at (first-without key j docs') in sym new ∙ (rw same old)
