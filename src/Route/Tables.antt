-- ===== src/Route/Tables.antt =====
-- src/route/routes.go and src/route/router.go: which handlers a mode serves, and behind which
-- authentication.
pub mod Guards
use pulsar_beam.Prelude.{String, List, [], ◌∷◌, ◌++◌, if◌then◌else◌, ◌==◌}
use pulsar_beam.Util.{hybrid, receiver_mode, http_only, token_server, http_with_no_rest}

pub data HandlerFunc : Type 0 where
  token_subject_handler prometheus_handler status_page receive_handler sse_handler poll_handler
        get_topic_handler update_topic_handler delete_topic_handler :
      HandlerFunc

pub data AuthFunc : Type 0 where
  auth_verify_jwt auth_header_required no_auth : AuthFunc

pub record Route : Type 0 where
  pub name : String
  pub method : String
  pub pattern : String
  pub handler_func : HandlerFunc
  pub auth_func : AuthFunc

abbrev route : String → String → String → HandlerFunc → AuthFunc → Route
route name method pattern handler_func auth_func = record {
  name = name;
  method = method;
  pattern = pattern;
  handler_func = handler_func;
  auth_func = auth_func;
}

abbrev pub token_server_routes : List Route
token_server_routes =
    route "token server" "GET" "/subject/{sub}" token_subject_handler auth_verify_jwt ∷ []

abbrev pub prometheus_route : List Route
prometheus_route = route "Prometeus metrics" "GET" "/metrics" prometheus_handler no_auth ∷ []

abbrev pub receiver_routes : List Route
receiver_routes =
    route "status" "GET" "/status" status_page auth_header_required
    ∷ route "Receive" "POST" "/v1/firehose" receive_handler no_auth
    ∷ route "Receive" "POST" "/v2/firehose/{persistent}/{tenant}/{namespace}/{topic}"
        receive_handler auth_verify_jwt
    ∷ route "http-sse" "GET" "/v2/sse/{persistent}/{tenant}/{namespace}/{topic}" sse_handler
        auth_verify_jwt
    ∷ route "poll-messages" "GET" "/v2/poll/{persistent}/{tenant}/{namespace}/{topic}" poll_handler
        auth_verify_jwt
    ∷ []

abbrev pub rest_routes : List Route
rest_routes =
    route "Get a topic with key" "GET" "/v2/topic/{topicKey}" get_topic_handler auth_verify_jwt
    ∷ route "Get a topic" "GET" "/v2/topic" get_topic_handler auth_verify_jwt
    ∷ route "Update a topic" "POST" "/v2/topic" update_topic_handler auth_verify_jwt
    ∷ route "Delete a topic with key" "DELETE" "/v2/topic/{topicKey}" delete_topic_handler
        auth_verify_jwt
    ∷ route "Delete a topic" "DELETE" "/v2/topic" delete_topic_handler auth_verify_jwt
    ∷ []

unfoldable pub get_routes : String → List Route
get_routes mode =
    if mode == hybrid
    then receiver_routes ++ rest_routes
    else if mode == receiver_mode
    then receiver_routes
    else if mode == http_only
    then receiver_routes ++ rest_routes ++ token_server_routes
    else if mode == token_server
    then token_server_routes
    else if mode == http_with_no_rest
    then receiver_routes ++ token_server_routes
    else rest_routes

unfoldable pub get_effective_routes : String → List Route
unfolding get_routes
get_effective_routes mode = prometheus_route ++ get_routes mode
