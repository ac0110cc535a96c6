-- ===== src/Tests/MongoTests.antt =====
-- src/db/mongo.go at concrete inputs.
use pulsar_beam.Prelude.{
  String, Option, none, some, List, [], ◌∷◌, ◌++◌, All, Result, ok, err, ◌≡◌, ◌≢◌, refl, map, inl,
}
use pulsar_beam.Model.Topic.{TopicConfig}
use pulsar_beam.Db.Mongo.{Collection, no_documents, index_key, create}
use pulsar_beam.Db.Mongo.Collections.{first, set_first, without, count, IsCollection}
use pulsar_beam.Db.Mongo.Contract.{IsStore, mongo_db-IsStore}
use pulsar_beam.Db.Mongo.Index.{bson_text, create_second}
use pulsar_beam.Broker.Webhook.{Registry}
use pulsar_beam.Tests.Samples.{plain, orders, keyed}

abbrev Docs : Type 0
Docs = List TopicConfig

abbrev one_found : Option TopicConfig → Result TopicConfig
one_found none = err no_documents
one_found (some doc) = ok doc

-- With the index of `Init`, there is room for one document.
abbrev insert_alone : TopicConfig → Docs → Option String × Docs
insert_alone doc [] = (none, doc ∷ [])
insert_alone doc (old ∷ docs) = (some "duplicate key", old ∷ docs)

abbrev collection : Collection Docs
unfolding first set_first without count
collection = record {
  find_one = λ key docs. one_found (first key docs);
  find = λ docs. ok (map ok docs);
  insert_one = insert_alone;
  update_one = λ key changes docs. (none, set_first key changes docs);
  delete_many = λ key docs. (ok (count key docs), without key docs);
}

found_one : (x : Option TopicConfig) (doc : TopicConfig) → one_found x ≡ ok doc → x ≡ some doc
found_one none doc h = cc
found_one (some old) doc h = cc

missing_one : (x : Option TopicConfig) → one_found x ≡ err no_documents → x ≡ none
missing_one none h = refl
missing_one (some old) h = cc

insert_alone-room :
    (doc : TopicConfig) (docs docs' : Docs)
    → insert_alone doc docs ≡ (none, docs')
    → (docs' ≡ docs ++ (doc ∷ []))
      × All (λ old. bson_text index_key old ≢ bson_text index_key doc) docs
insert_alone-room doc [] docs' h = (cc, tt)
insert_alone-room doc (old ∷ docs) docs' h = cc

insert_alone-full :
    (doc : TopicConfig) (docs docs' : Docs) (e : String)
    → insert_alone doc docs ≡ (some e, docs')
    → docs' ≡ docs
insert_alone-full doc [] docs' e h = cc
insert_alone-full doc (old ∷ docs) docs' e h = cc

collection-IsCollection : IsCollection collection (λ docs. docs) (bson_text index_key)
unfolding collection
collection-IsCollection = record {
  found = λ key docs doc h. found_one (first key docs) doc h;
  missing = λ key docs h. missing_one (first key docs) h;
  inserted = insert_alone-room;
  insert_failed = λ doc docs docs' e h. inl (insert_alone-full doc docs docs' e h);
  updated = λ key changes docs docs' h. cc;
  update_failed = λ key changes docs docs' e h. cc;
  removed = λ key n docs docs' h. (cc, cc);
  remove_failed = λ key e docs docs' h. cc;
}

mongo_db-IsStore_example : IsStore plain collection (λ docs. docs)
mongo_db-IsStore_example = mongo_db-IsStore plain collection (λ docs. docs) collection-IsCollection

create_second_example :
    (e : String) × ((create collection plain 7 orders (keyed ∷ [])).0 ≡ err e)
    × ((create collection plain 7 orders (keyed ∷ [])).1 ≡ keyed ∷ [])
create_second_example =
    create_second plain collection (λ docs. docs) collection-IsCollection 7 orders keyed []
      (keyed ∷ []) refl

-- A collection that cannot be reached.
abbrev unreachable : Collection Docs
unfolding collection
unreachable = record collection { find = λ docs. err "no reachable servers" }

abbrev one_webhook : Registry
one_webhook = record { webhooks = ("k", 0) ∷ []; closed = []; next = 1 }
