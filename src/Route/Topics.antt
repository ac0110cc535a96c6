-- ===== src/Route/Topics.antt =====
-- The handlers of the topic documents in src/route/handlers.go, over any driver of the database.
pub mod Safety
pub mod Replies
use Prim.Native.String.{len}
use pulsar_beam.Prelude.{
  ℕ, String, Bool, true, false, not, Option, none, some, Result, ok, err, ltb, if◌then◌else◌,
}
use pulsar_beam.Prelude.Maps.{lookup}
use pulsar_beam.Model.Topic.{TopicConfig, TopicKey, get_key_from_names, validate_topic_config}
use pulsar_beam.Util.{header_get, super_role_list}
use pulsar_beam.Db.{Crud}
use pulsar_beam.Route.Auth.{extract_eval_tenant, verify_subject_based_on_topic}
use pulsar_beam.Route.Http.{
  Request, Decoded, end_of_file, malformed, decoded, Server, Writer, fresh, write_header, write,
  set_content_type, response_error_json, json_utf8,
}

module _ (server : Server) where
  abbrev key_of_body : Decoded TopicKey → Result String
  key_of_body end_of_file = err "missing topic key or topic names in body"
  key_of_body (malformed e) = err e
  key_of_body (decoded topic) =
      get_key_from_names server.platform topic.topic_full_name topic.pulsar_url

  unfoldable pub get_topic_key : Request → Result String
  get_topic_key r = elim (lookup "topicKey" r.vars) [
    | some topic_key ↦ ok topic_key
    | none ↦ key_of_body (server.coder.decode_key r.body)
  ]

  -- The test that guards each of the handlers.
  unfoldable pub may_manage : Request → TopicConfig → Bool
  unfolding verify_subject_based_on_topic extract_eval_tenant super_role_list header_get
  may_manage r doc =
      verify_subject_based_on_topic (super_role_list server.config) doc.topic_full_name
        (header_get r.headers "injectedSubs") extract_eval_tenant

  abbrev failed : String → ℕ → Writer
  failed e code = response_error_json server.coder e code fresh

  abbrev reply_json : Result String → Writer
  reply_json (err e) = failed e 500
  reply_json (ok json) = write json (set_content_type json_utf8 fresh)

  module _ {S : Type 0} (db : Crud S) where
    abbrev got : Request → Result TopicConfig → Writer
    got r (err e) = failed e 404
    got r (ok doc) =
        if may_manage r doc
        then reply_json (server.coder.encode_doc doc)
        else write_header 403 fresh

    abbrev get_with_key : Request → S → Result String → Writer
    get_with_key r s (err e) = failed e 422
    get_with_key r s (ok topic_key) = got r (db.get_by_key topic_key s)

    unfoldable pub get_topic_handler : Request → S → Writer
    unfolding get_topic_key
    get_topic_handler r s = get_with_key r s (get_topic_key r)

    -- `UpdateTopicHandler` sets the content type first, and writes the status before it encodes.
    abbrev answer_update : String → ℕ → Writer
    answer_update e code =
        response_error_json server.coder e code (set_content_type json_utf8 fresh)

    abbrev reply_created : Result String → Writer
    reply_created (ok json) = write json (write_header 201 (set_content_type json_utf8 fresh))
    reply_created (err e) =
        response_error_json server.coder e 500 (write_header 201 (set_content_type json_utf8 fresh))

    abbrev reply_saved : Result TopicConfig → Writer
    reply_saved (err e) = answer_update e 500
    reply_saved (ok saved_doc) = reply_created (server.coder.encode_doc saved_doc)

    abbrev updated : Result String × S → Writer × S
    updated (err e, s) = (answer_update e 409, s)
    updated (ok id, s) =
        if ltb 1 (len id)
        then (reply_saved (db.get_by_key id s), s)
        else (answer_update "failed to update" 500, s)

    abbrev update_validated : ℕ → Request → TopicConfig → S → Result String → Writer × S
    update_validated now r doc s (err e) = (answer_update e 422, s)
    update_validated now r doc s (ok _) =
        if may_manage r doc
        then updated (db.update now doc s)
        else (write_header 403 (set_content_type json_utf8 fresh), s)

    abbrev update_decoded : ℕ → Request → S → Decoded TopicConfig → Writer × S
    update_decoded now r s end_of_file = (answer_update "EOF" 422, s)
    update_decoded now r s (malformed e) = (answer_update e 422, s)
    update_decoded now r s (decoded doc) =
        update_validated now r doc s (validate_topic_config server.platform doc)

    unfoldable pub update_topic_handler : ℕ → Request → S → Writer × S
    update_topic_handler now r s = update_decoded now r s (server.coder.decode_doc r.body)

    abbrev reply_deleted : Result String → Writer
    reply_deleted (err e) = write_header 500 fresh
    reply_deleted (ok json) = write json (set_content_type json_utf8 fresh)

    abbrev deleted_with : Result String × S → Writer × S
    deleted_with (err e, s) = (failed e 404, s)
    deleted_with (ok deleted_key, s) = (reply_deleted (server.coder.encode_text deleted_key), s)

    abbrev delete_found : Request → String → S → Result TopicConfig → Writer × S
    delete_found r topic_key s (err e) = (failed e 404, s)
    delete_found r topic_key s (ok doc) =
        if may_manage r doc
        then deleted_with (db.delete_by_key topic_key s)
        else (write_header 403 fresh, s)

    abbrev delete_with_key : Request → S → Result String → Writer × S
    delete_with_key r s (err e) = (failed e 422, s)
    delete_with_key r s (ok topic_key) = delete_found r topic_key s (db.get_by_key topic_key s)

    unfoldable pub delete_topic_handler : Request → S → Writer × S
    unfolding get_topic_key
    delete_topic_handler r s = delete_with_key r s (get_topic_key r)
