-- ===== src/Route/Topics/Replies.antt =====
-- What a client of the topic handlers sees.
use Prim.Native.String.{len}
use pulsar_beam.Prelude.{
  ℕ, ◌<◌, String, true, false, ◌≡◌, ◌≢◌, ◌↔◌, inl, inr, ◌∙◌, some, Result, ok, err, Result-cases,
  Bool-cases, >>=-eq-ok, arith, eq_iff, ltb,
}
use pulsar_beam.Platform.{Platform}
use pulsar_beam.Model.Topic.{TopicConfig, validate_topic_config, validate_webhook_config}
use pulsar_beam.Db.{Crud, get_key}
use pulsar_beam.Db.Contract.{IsLawful}
use pulsar_beam.Route.Http.{Request, Server, Writer, decoded, json_utf8}
use pulsar_beam.Route.Topics.{
  get_topic_key, may_manage, get_topic_handler, update_topic_handler, reply_json,
}

pub validate_topic_config-get_key :
    (platform : Platform) (doc : TopicConfig) (key : String)
    → validate_topic_config platform doc ≡ ok key
    → get_key platform doc ≡ ok key
unfolding validate_topic_config get_key
validate_topic_config-get_key platform doc key e =
    let (_, _, k) = >>=-eq-ok (validate_webhook_config platform doc.webhooks) _ e in k

abbrev pub answer : ℕ → String → Writer
answer code json = record { status = some code; content_type = json_utf8; body = json }

module _ {S : Type 0} (server : Server) (db : Crud S) where
  reply_json-ne-403 : (q : Result String) → (reply_json server q).status ≢ some 403
  reply_json-ne-403 (ok json) = ground arith
  reply_json-ne-403 (err e) = ground arith

  forbidden :
      (r : Request) (s : S)
      → (get_topic_handler server db r s).status ≡ some 403
      → (key : String) × (doc : TopicConfig) × (get_topic_key server r ≡ ok key)
        × (db.get_by_key key s ≡ ok doc)
        × (may_manage server r doc ≡ false)
  unfolding get_topic_handler
  forbidden r s e = elim (Result-cases (get_topic_key server r)) [
    | inr (m, bad) ↦ absurd (ground arith)
    | inl (key, named) ↦ elim (Result-cases (db.get_by_key key s)) [
      | inr (m, missing) ↦ absurd (ground arith)
      | inl (doc, stored) ↦ elim (Bool-cases (may_manage server r doc)) [
        | inr other ↦ (key, doc, named, stored, other)
        | inl managed ↦
            absurd
              (reply_json-ne-403 (server.coder.encode_doc doc) (rw (named, stored, managed) at e))
      ]
    ]
  ]

  -- A request to read is forbidden exactly if the document is there and the request's subjects do not
  -- have the say over it.
  pub get_topic_handler-forbidden_iff :
      (r : Request) (s : S)
      → ((get_topic_handler server db r s).status ≡ some 403) ↔ (
          (key : String) × (doc : TopicConfig) × (get_topic_key server r ≡ ok key)
          × (db.get_by_key key s ≡ ok doc)
          × (may_manage server r doc ≡ false))
  unfolding get_topic_handler
  get_topic_handler-forbidden_iff r s =
      (forbidden r s, λ (key, doc, named, stored, other). rw (named, stored, other))

  module _ {Inv : S → Type 0} (lawful : IsLawful server.platform db Inv) where
    -- Over a lawful driver, let a request carry a valid document over which its subjects have the say,
    -- which carries the key of its names, of two bytes or more, and which can be encoded, let a document
    -- be stored under that key, and let the driver's update succeed. Then the request is answered with
    -- the document as it was sent, and a request for that key whose subjects have the say over it reads
    -- that document back.
    pub get-update :
        (now : ℕ) (r q : Request) (s s' : S) (doc old : TopicConfig) (key id json : String)
        → Inv s
        → server.coder.decode_doc r.body ≡ decoded doc
        → validate_topic_config server.platform doc ≡ ok key
        → may_manage server r doc ≡ true
        → doc.key ≡ key
        → 1 < len key
        → db.get_by_key key s ≡ ok old
        → db.update now doc s ≡ (ok id, s')
        → server.coder.encode_doc doc ≡ ok json
        → get_topic_key server q ≡ ok key
        → may_manage server q doc ≡ true
        → (update_topic_handler server db now r s ≡ (answer 201 json, s'))
          × (get_topic_handler server db q s' ≡ answer 200 json)
    unfolding update_topic_handler get_topic_handler
    get-update now r q s s' doc old key id json h read valid managed own long stored u coded named
          reads =
        let k = validate_topic_config-get_key server.platform doc key valid in
        let (same, files, _) = lawful.updated_old now doc old s s' key id h k stored u in
        let shown : db.get_by_key key s' ≡ ok doc = files key ∙ (rw ((eq_iff doc.key key).1 own)) in
        let wide : ltb 1 (len key) ≡ true = ground arith in
        (
          rw (read, valid, managed, u, same own, wide, shown, coded),
          rw (named, shown, reads, coded),
        )
