-- ===== src/Middleware/Authentication.antt =====
-- What `AuthVerifyJWT` lets through, alone and in front of the handler that deletes a topic.
use pulsar_beam.Prelude.{
  String, true, Result, ok, err, ◌≡◌, refl, inl, inr, ◌⊎◌, arith, sym, ◌∙◌, eq_iff, if◌then◌else◌,
  ◌==◌, Result-cases,
}
use pulsar_beam.Prelude.Maps.{lookup-insert}
use pulsar_beam.Model.Topic.{TopicConfig}
use pulsar_beam.Util.{Configuration, first, header_get, header_set, super_role_list}
use pulsar_beam.Route.Http.{Request, Handler, fresh, http_error, Server}
use pulsar_beam.Route.Auth.{extract_eval_tenant, verify_subject_based_on_topic}
use pulsar_beam.Route.Topics.{get_topic_key, may_manage, delete_topic_handler}
use pulsar_beam.Route.Topics.Safety.{delete_topic_handler-effect}
use pulsar_beam.Db.{Crud}
use pulsar_beam.Db.Contract.{IsLawful, Drops}
use pulsar_beam.Middleware.{auth_verify_jwt, inject, bearer}

header_get-inject :
    (subjects : String) (r : Request)
    → header_get (inject subjects r).headers "injectedSubs" ≡ subjects
unfolding inject header_get header_set
header_get-inject subjects r = rw lookup-insert refl

-- The subjects that the middleware finds for a request.
unfoldable pub granted : Configuration → (String → Result String) → Request → Result String
granted config token_subject r =
    if config.http_auth_impl == "noauth"
    then ok (first (super_role_list config))
    else token_subject (bearer r)

module _ {S : Type 0} (config : Configuration) (token_subject : String → Result String)
    (next : Handler S) (r : Request) (s : S) where
  granted_lem :
      (subjects : String)
      → granted config token_subject r ≡ ok subjects
      → auth_verify_jwt config token_subject next r s ≡ next (inject subjects r) s
  unfolding granted auth_verify_jwt
  granted_lem subjects e = ground (arith, eq_iff config.http_auth_impl "noauth")

  pub refused_lem :
      (e : String)
      → granted config token_subject r ≡ err e
      → auth_verify_jwt config token_subject next r s ≡ (http_error "Unauthorized" 401 fresh, s)
  unfolding granted auth_verify_jwt
  refused_lem e h = ground (arith, eq_iff config.http_auth_impl "noauth")

may_manage-inject :
    (server : Server) (subjects : String) (r : Request) (doc : TopicConfig)
    → may_manage server (inject subjects r) doc ≡ true
    → verify_subject_based_on_topic
        (super_role_list server.config)
        doc.topic_full_name
        subjects
        extract_eval_tenant
      ≡ true
unfolding may_manage
may_manage-inject server subjects r doc h = rw (← header_get-inject subjects r) h

module _ {S : Type 0} (server : Server) (token_subject : String → Result String) (db : Crud S) where
  -- The document under the key is one over which the subjects that the request was granted have the
  -- say.
  pub record MayDeleteAs (r : Request) (s : S) (key : String) : Type 0 where
    pub subjects : String
    pub doc : TopicConfig
    pub authentic : granted server.config token_subject r ≡ ok subjects
    pub named : get_topic_key server r ≡ ok key
    pub stored : db.get_by_key key s ≡ ok doc
    pub managed :
        verify_subject_based_on_topic
          (super_role_list server.config)
          doc.topic_full_name
          subjects
          extract_eval_tenant
        ≡ true

  -- `DELETE /v2/topic` as it is served.
  unfoldable pub protected_delete : Handler S
  unfolding auth_verify_jwt delete_topic_handler
  protected_delete = auth_verify_jwt server.config token_subject (delete_topic_handler server db)

  get_topic_key-inject :
      (subjects : String) (r : Request)
      → get_topic_key server (inject subjects r) ≡ get_topic_key server r
  unfolding get_topic_key inject
  get_topic_key-inject subjects r = refl

  module _ {Inv : S → Type 0} (lawful : IsLawful server.platform db Inv) where
    -- Over a lawful driver, a request to delete that comes through `AuthVerifyJWT` either changes
    -- nothing, or it deletes the document under one key and no other, and then its token was
    -- verified, or verification is switched off, and the subjects of the token, or the first super
    -- role, have the say over that document: no header that the client sends counts.
    pub protected_delete-effect :
        (r : Request) (s : S)
        → Inv s
        → ((protected_delete r s).1 ≡ s)
          ⊎ ((key : String) × MayDeleteAs r s key × Drops db key s (protected_delete r s).1)
    unfolding protected_delete
    protected_delete-effect r s h = elim (Result-cases (granted server.config token_subject r)) [
      | inr (e, bad) ↦ inl (
          rw (refused_lem server.config token_subject (delete_topic_handler server db) r s e bad)
            refl)
      | inl (subjects, good) ↦
          rw
            (granted_lem server.config token_subject (delete_topic_handler server db) r s subjects
              good)
            (elim (delete_topic_handler-effect server db lawful (inject subjects r) s h) [
              | inl same ↦ inl same
              | inr (key, may, drops, _) ↦ inr (
                key,
                record {
                  subjects = subjects;
                  doc = may.doc;
                  authentic = good;
                  named = sym (get_topic_key-inject subjects r) ∙ may.named;
                  stored = may.stored;
                  managed = may_manage-inject server subjects r may.doc may.managed;
                },
                drops,
              )
            ])
    ]
