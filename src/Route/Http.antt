-- ===== src/Route/Http.antt =====
-- What a handler is given and what it writes: requests, the response writer of `net/http`, and the
-- JSON coder.
use pulsar_beam.Prelude.{ℕ, String, Option, none, some, Result}
use pulsar_beam.Prelude.Maps.{Map}
use pulsar_beam.Strings.{◌<>◌}
use pulsar_beam.Platform.{Platform}
use pulsar_beam.Model.Topic.{TopicConfig, TopicKey}
use pulsar_beam.Util.{Configuration, Values}

pub record Request : Type 0 where
  pub method : String
  pub request_uri : String
  pub proto : String
  pub headers : Values
  -- `mux.Vars`: the named parts of the route
  pub vars : Map String
  pub query : Values
  pub body : String

-- How a JSON decoder leaves a body: `io.EOF`, another error, or a value.
pub data Decoded {ℓ} (A : Type ℓ) : Type ℓ where
  end_of_file : Decoded A
  malformed : String → Decoded A
  decoded : A → Decoded A

-- `encoding/json` on the types that the handlers use. The object of an error message always has an
-- encoding.
pub record Coder : Type 0 where
  pub encode_doc : TopicConfig → Result String
  pub encode_text : String → Result String
  pub encode_error : String → String
  pub encode_token : String → String → Result String
  pub decode_doc : String → Decoded TopicConfig
  pub decode_key : String → Decoded TopicKey

pub record Server : Type 0 where
  pub config : Configuration
  pub platform : Platform
  pub coder : Coder

-- The first status that is written counts; a body without one has status 200.
pub record Writer : Type 0 where
  pub status : Option ℕ
  pub content_type : String
  pub body : String

abbrev pub fresh : Writer
fresh = record { status = none; content_type = ""; body = "" }

abbrev status_or : ℕ → Option ℕ → Option ℕ
status_or code none = some code
status_or code (some old) = some old

abbrev pub write_header : ℕ → Writer → Writer
write_header code w = record w { status = status_or code w.status }

abbrev pub write : String → Writer → Writer
write text w = record w { status = status_or 200 w.status; body = w.body <> text }

abbrev type_or : String → String → Option ℕ → String
type_or t old none = t
type_or t old (some _) = old

-- `w.Header().Set("Content-Type", t)`, without effect behind the status line.
abbrev pub set_content_type : String → Writer → Writer
set_content_type t w = record w { content_type = type_or t w.content_type w.status }

-- `ResponseErrorJSON`.
abbrev pub response_error_json : Coder → String → ℕ → Writer → Writer
response_error_json coder e code w =
    write (coder.encode_error e) (write_header code (set_content_type "application/json" w))

-- `http.Error`.
abbrev pub http_error : String → ℕ → Writer → Writer
http_error text code w =
    write (text <> "\n") (write_header code (set_content_type "text/plain; charset=utf-8" w))

-- A handler over the state that the program keeps between requests.
abbrev pub Handler : Type 0 → Type 0
Handler S = Request → S → Writer × S

abbrev pub json_utf8 : String
json_utf8 = "application/json; charset=UTF-8"
