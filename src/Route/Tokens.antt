-- ===== src/Route/Tokens.antt =====
-- `TokenSubjectHandler` and `StatusPage` of src/route/handlers.go.
pub mod Issue
use pulsar_beam.Prelude.{Bool, String, Option, none, some, [], ◌∷◌, Result, ok, err, if◌then◌else◌}
use pulsar_beam.Prelude.Maps.{lookup}
use pulsar_beam.Util.{super_role_list, str_contains, assign_string, header_get}
use pulsar_beam.Route.Http.{
  Request, Server, Writer, fresh, write_header, write, response_error_json,
}

unfoldable pub status_page : Request → Writer
status_page r = write_header 200 fresh

-- Whether the request may have a token for any subject.
unfoldable pub may_issue : Server → Request → Bool
unfolding super_role_list str_contains assign_string header_get
may_issue server r =
    str_contains (super_role_list server.config)
      (assign_string (header_get r.headers "injectedSubs" ∷ "BOGUSROLE" ∷ []))

-- `generate_token` is `JWTAuth.GenerateToken`.
module _ (server : Server) (generate_token : String → Result String) where
  abbrev token_encoded : Result String → Writer
  token_encoded (ok json) = write json fresh
  token_encoded (err e) =
      response_error_json server.coder "failed to marshal token response json object" 500 fresh

  abbrev token_reply : String → Result String → Writer
  token_reply subject (ok token_string) =
      token_encoded (server.coder.encode_token subject token_string)
  token_reply subject (err e) =
      response_error_json server.coder "failed to generate token" 500 fresh

  abbrev token_for : Request → Option String → Writer
  token_for r none = write_header 422 fresh
  token_for r (some subject) =
      if may_issue server r
      then token_reply subject (generate_token subject)
      else response_error_json server.coder "incorrect subject" 401 fresh

  unfoldable pub token_subject_handler : Request → Writer
  unfolding may_issue lookup
  token_subject_handler r = token_for r (lookup "sub" r.vars)
