-- ===== src/Route/Topics/Safety.antt =====
-- What the handlers may change, and for whom.
use pulsar_beam.Prelude.{
  ℕ, String, true, false, ◌≡◌, ◌⊎◌, inl, inr, refl, Result, ok, err, Result-cases, Bool-cases,
  arith,
}
use pulsar_beam.Model.Topic.{TopicConfig, validate_topic_config}
use pulsar_beam.Db.{Crud, doc_not_found, get_key, stamped}
use pulsar_beam.Db.Contract.{Files, Drops, IsLawful}
use pulsar_beam.Route.Http.{Request, Server, Decoded, end_of_file, malformed, decoded}
use pulsar_beam.Route.Topics.{
  get_topic_key, may_manage, update_topic_handler, delete_topic_handler, updated, deleted_with,
}

Decoded-cases :
    {A : Type 0} (d : Decoded A)
    → ((a : A) × (d ≡ decoded a)) ⊎ (d ≡ end_of_file) ⊎ ((e : String) × (d ≡ malformed e))
Decoded-cases (decoded a) = inl (a, refl)
Decoded-cases end_of_file = inr (inl refl)
Decoded-cases (malformed e) = inr (inr (e, refl))

module _ {S : Type 0} (server : Server) (db : Crud S) where
  -- A request may delete the document under the key: it names the key, the document is there, and
  -- the request's subjects have the say over it.
  pub record MayDelete (r : Request) (s : S) (key : String) : Type 0 where
    pub doc : TopicConfig
    pub named : get_topic_key server r ≡ ok key
    pub stored : db.get_by_key key s ≡ ok doc
    pub managed : may_manage server r doc ≡ true

  -- A document of the request is filed: it is decoded, valid, and under the say of the request's
  -- subjects.
  pub record MayFile (r : Request) (doc : TopicConfig) : Type 0 where
    pub read : server.coder.decode_doc r.body ≡ decoded doc
    pub valid : (k : String) × (validate_topic_config server.platform doc ≡ ok k)
    pub managed : may_manage server r doc ≡ true

  module _ {Inv : S → Type 0} (lawful : IsLawful server.platform db Inv) where
    delete_lem :
        (r : Request) (s s' : S) (key : String) (q : Result String)
        → Inv s
        → MayDelete r s key
        → db.delete_by_key key s ≡ (q, s')
        → (s' ≡ s) ⊎ (Drops db key s s' × Inv s')
    delete_lem r s s' key (ok id) h m e =
        let (_, drops, h') = lawful.deleted s s' key id h e in inr (drops, h')
    delete_lem r s s' key (err _) h m e = inl (lawful.refused_delete s s' key _ e)

    state_deleted : (x : Result String × S) → (deleted_with server db x).1 ≡ x.1
    state_deleted (ok id, s) = refl
    state_deleted (err e, s) = refl

    -- Over a lawful driver, a request to delete either changes nothing, or it deletes the document
    -- under one key that it may delete, and no other.
    pub delete_topic_handler-effect :
        (r : Request) (s : S)
        → Inv s
        → ((delete_topic_handler server db r s).1 ≡ s)
          ⊎ ((key : String) × MayDelete r s key
              × Drops db key s (delete_topic_handler server db r s).1
              × Inv (delete_topic_handler server db r s).1)
    unfolding delete_topic_handler
    delete_topic_handler-effect r s h = elim (Result-cases (get_topic_key server r)) [
      | inr (e, bad) ↦ inl (rw bad)
      | inl (key, named) ↦ elim (Result-cases (db.get_by_key key s)) [
        | inr (e, missing) ↦ inl (rw (named, missing))
        | inl (doc, stored) ↦ elim (Bool-cases (may_manage server r doc)) [
          | inr other ↦ inl (rw (named, stored, other))
          | inl managed ↦
              let m : MayDelete r s key = record {
                doc = doc;
                named = named;
                stored = stored;
                managed = managed;
              } in
              rw (named, stored, managed, state_deleted)
                (elim (delete_lem r s _ key _ h m refl) [
                  | inl same ↦ inl same
                  | inr (drops, h') ↦ inr (key, m, drops, h')
                ])
        ]
      ]
    ]

    -- What an accepted update has done to the documents: if none stood under the key of its names, it
    -- is stamped and filed under that key; if one did, it is filed as it is under the key that it
    -- carries.
    abbrev pub Filed : ℕ → TopicConfig → S → S → Type 0
    Filed now doc s s' =
        (key : String) × (get_key server.platform doc ≡ ok key)
        × (((db.get_by_key key s ≡ err doc_not_found) × Files db key (stamped key now doc) s s')
            ⊎ ((old : TopicConfig) × (db.get_by_key key s ≡ ok old) × Files db doc.key doc s s'))

    -- A document that may be filed is refused by the driver.
    abbrev pub IsRefused : ℕ → Request → S → Type 0
    IsRefused now r s =
        (doc : TopicConfig) → MayFile r doc → (e : String) × ((db.update now doc s).0 ≡ err e)

    update_lem :
        (only_missing : (k e : String) (s : S) → db.get_by_key k s ≡ err e → e ≡ doc_not_found)
        (now : ℕ) (doc : TopicConfig) (s s' : S) (q : Result String)
        → Inv s
        → db.update now doc s ≡ (q, s')
        → ((s' ≡ s) × ((e : String) × (q ≡ err e))) ⊎ (Filed now doc s s' × Inv s')
    update_lem only now doc s s' (err e) h u =
        inl (lawful.refused_update now doc s s' e u, (e, refl))
    update_lem only now doc s s' (ok id) h u =
        let (key, k) = lawful.updated_key now doc s s' id u in
        elim (Result-cases (db.get_by_key key s)) [
          | inr (e, missing) ↦
              let n : db.get_by_key key s ≡ err doc_not_found =
                rw (← only key e s missing) missing in
              let (_, files, h') = lawful.updated_new now doc s s' key id h k n u in
              inr ((key, k, inl (n, files)), h')
          | inl (old, stored) ↦
              let (_, files, h') = lawful.updated_old now doc old s s' key id h k stored u in
              inr ((key, k, inr (old, stored, files)), h')
        ]

    same_doc :
        (r : Request) (doc other : TopicConfig)
        → server.coder.decode_doc r.body ≡ decoded doc
        → MayFile r other
        → doc ≡ other
    same_doc r doc other read m = let found = m.read in cc

    not_valid :
        (r : Request) (s : S) (now : ℕ) (doc : TopicConfig) (e : String)
        → server.coder.decode_doc r.body ≡ decoded doc
        → validate_topic_config server.platform doc ≡ err e
        → IsRefused now r s
    not_valid r s now doc e read invalid other m =
        let same = same_doc r doc other read m in
        let (k, valid) = m.valid in absurd (cc (rw (← same) at valid))

    not_managed :
        (r : Request) (s : S) (now : ℕ) (doc : TopicConfig)
        → server.coder.decode_doc r.body ≡ decoded doc
        → may_manage server r doc ≡ false
        → IsRefused now r s
    not_managed r s now doc read no_say other m =
        let same = same_doc r doc other read m in
        let managed = m.managed in absurd (cc (rw (← same) at managed))

    refuses :
        (r : Request) (s : S) (now : ℕ) (doc : TopicConfig) (e : String)
        → server.coder.decode_doc r.body ≡ decoded doc
        → (db.update now doc s).0 ≡ err e
        → IsRefused now r s
    refuses r s now doc e read refused other m =
        let same = same_doc r doc other read m in rw (← same) (e, refused)

    state_updated : (x : Result String × S) → (updated server db x).1 ≡ x.1
    state_updated (ok id, s) = ground arith
    state_updated (err e, s) = refl

    -- Over a lawful driver whose only error of `GetByKey` is the missing document, a request to update
    -- either changes nothing, and then the driver refuses the update with the document that the
    -- request carries, if that is valid and under the say of the request's subjects; or it files that
    -- document, which is valid and under their say: stamped under the key of its names if no document
    -- stood under that key, as it is under the key that it carries if one did.
    pub update_topic_handler-effect :
        (only_missing : (k e : String) (s : S) → db.get_by_key k s ≡ err e → e ≡ doc_not_found)
        (now : ℕ) (r : Request) (s : S)
        → Inv s
        → (((update_topic_handler server db now r s).1 ≡ s) × IsRefused now r s)
          ⊎ ((doc : TopicConfig) × MayFile r doc
              × Filed now doc s (update_topic_handler server db now r s).1
              × Inv (update_topic_handler server db now r s).1)
    unfolding update_topic_handler
    update_topic_handler-effect only now r s h =
        elim (Decoded-cases (server.coder.decode_doc r.body)) [
          | inr (inl bad) ↦ inl (rw bad, λ doc m. cc (m.read, bad))
          | inr (inr (e, bad)) ↦ inl (rw bad, λ doc m. cc (m.read, bad))
          | inl (doc, read) ↦ elim (Result-cases (validate_topic_config server.platform doc)) [
            | inr (e, invalid) ↦ inl (rw (read, invalid), not_valid r s now doc e read invalid)
            | inl (k, valid) ↦ elim (Bool-cases (may_manage server r doc)) [
              | inr other ↦ inl (rw (read, valid, other), not_managed r s now doc read other)
              | inl managed ↦
                  let m : MayFile r doc = record {
                    read = read;
                    valid = (k, valid);
                    managed = managed;
                  } in
                  rw (read, valid, managed, state_updated)
                    (elim (update_lem only now doc s _ _ h refl) [
                      | inl (same, (e, refused)) ↦ inl (same, refuses r s now doc e read refused)
                      | inr (filed, h') ↦ inr (doc, m, filed, h')
                    ])
            ]
          ]
        ]
