-- ===== src/Route/Consumers/Parameters.antt =====
-- What an accepted request asks for.
use pulsar_beam.Prelude.{
  ◌≤◌, String, some, ◌≡◌, sym, Option, none, Any, ◌⊎◌, inl, inr, refl, Result, ok, err, >>=-eq-ok,
  ok-injective, arith, Bool-cases, ltb, true,
}
use Prim.Native.String.{len}
use pulsar_beam.Prelude.Maps.{Map, lookup}
use pulsar_beam.Strings.{trim_space, ◌<>◌}
use pulsar_beam.Model.Topic.{non_resumable, get_subscription_type, get_initial_position}
use pulsar_beam.Util.{
  receiver_header, allowed_pulsar_urls, build_topic_fn, query_param_string, Values, is_restricted,
}
use pulsar_beam.Util.Clusters.{receiver_header-IsAllowed}
use pulsar_beam.Route.Http.{Server, Request}
use pulsar_beam.Route.Consumers.{
  ConsumerConfig, ConsumerParams, subscription_name, new_name, topic_part, consumer_params,
  get_topic_fn_from_route, consumer_config_from_http_parts,
}

-- The name is the one of the request, of five bytes or more, or a fresh one that marks the
-- subscription as one that is not meant to last.
abbrev pub IsNamed : Result String → String → String → Type 0
IsNamed uuid given name =
    ((name ≡ given) × (5 ≤ len name))
    ⊎ ((id : String) × (uuid ≡ ok id) × (name ≡ non_resumable <> id))

subscription_name-IsNamed :
    (uuid : Result String) (given name : String)
    → subscription_name uuid given ≡ ok name
    → IsNamed uuid given name
unfolding subscription_name
subscription_name-IsNamed uuid given name h = elim (Bool-cases (ltb 0 (len given))) [
  | inl longer ↦ inl (ground arith)
  | inr empty ↦ inr (fresh_name uuid (ground arith))
]
  where
    fresh_name :
        (u : Result String)
        → new_name u ≡ ok name
        → (id : String) × (u ≡ ok id) × (name ≡ non_resumable <> id)
    fresh_name (ok id) e = (id, refl, sym (ok-injective e))
    fresh_name (err e) bad = cc

topic_part_lem : (o : Option String) (v : String) → topic_part o ≡ ok v → o ≡ some v
topic_part_lem none v e = cc
topic_part_lem (some part) v e = cc

-- The four parts of the route, and the full name that is built from them.
pub record IsRouted (vars : Map String) (topic_fn : String) : Type 0 where
  pub tenant : String
  pub namespace : String
  pub topic : String
  pub persistent : String
  pub has_tenant : lookup "tenant" vars ≡ some tenant
  pub has_namespace : lookup "namespace" vars ≡ some namespace
  pub has_topic : lookup "topic" vars ≡ some topic
  pub has_persistent : lookup "persistent" vars ≡ some persistent
  pub built : build_topic_fn persistent tenant namespace topic ≡ ok topic_fn

get_topic_fn_from_route-IsRouted :
    (vars : Map String) (topic_fn : String)
    → get_topic_fn_from_route vars ≡ ok topic_fn
    → IsRouted vars topic_fn
unfolding get_topic_fn_from_route
get_topic_fn_from_route-IsRouted vars topic_fn h =
    let (tenant, e1, h1) = >>=-eq-ok (topic_part (lookup "tenant" vars)) _ h in
    let (namespace, e2, h2) = >>=-eq-ok (topic_part (lookup "namespace" vars)) _ h1 in
    let (topic, e3, h3) = >>=-eq-ok (topic_part (lookup "topic" vars)) _ h2 in
    let (persistent, e4, h4) = >>=-eq-ok (topic_part (lookup "persistent" vars)) _ h3 in
    record {
      tenant = tenant;
      namespace = namespace;
      topic = topic;
      persistent = persistent;
      has_tenant = topic_part_lem _ _ e1;
      has_namespace = topic_part_lem _ _ e2;
      has_topic = topic_part_lem _ _ e3;
      has_persistent = topic_part_lem _ _ e4;
      built = h4;
    }

consumer_params-IsNamed :
    (uuid : Result String) (params : Values) (p : ConsumerParams)
    → consumer_params uuid params ≡ ok p
    → IsNamed uuid (query_param_string params "SubscriptionName" "") p.sub_name
unfolding consumer_params
consumer_params-IsNamed uuid params p h =
    let (_, _, h1) =
      >>=-eq-ok (get_subscription_type (query_param_string params "SubscriptionType" "exclusive")) _
        h in
    let (_, _, h2) =
      >>=-eq-ok
        (get_initial_position (query_param_string params "SubscriptionInitialPosition" "latest")) _
        h1 in
    let (name, e, h3) =
      >>=-eq-ok (subscription_name uuid (query_param_string params "SubscriptionName" "")) _ h2 in
    rw (← ok-injective h3) (subscription_name-IsNamed uuid _ name e)

-- An accepted request for a consumer reads the topic whose full name its route spells out, on a
-- cluster that the list of clusters admits, if it restricts requests, under a subscription name of
-- five bytes or more, or under a fresh one that marks the subscription as one that is not meant to
-- last.
pub consumer_config_from_http_parts-eq-ok :
    (server : Server) (uuid : Result String) (r : Request) (config : ConsumerConfig)
    → consumer_config_from_http_parts server uuid r ≡ ok config
    → IsRouted r.vars config.topic_fn
      × IsNamed uuid (query_param_string r.query "SubscriptionName" "") config.params.sub_name
      × (is_restricted (allowed_pulsar_urls server.config) ≡ true
          → Any
              (λ v. trim_space v ≡ trim_space config.pulsar_url)
              (allowed_pulsar_urls server.config))
unfolding consumer_config_from_http_parts
consumer_config_from_http_parts-eq-ok server uuid r config h =
    let (rec, e1, h1) =
      >>=-eq-ok (receiver_header server.config (allowed_pulsar_urls server.config) r.headers) _ h in
    let (topic_fn, e2, h2) = >>=-eq-ok (get_topic_fn_from_route r.vars) _ h1 in
    let (p, e3, h3) = >>=-eq-ok (consumer_params uuid r.query) _ h2 in
    rw (← ok-injective h3) (
      get_topic_fn_from_route-IsRouted r.vars topic_fn e2,
      consumer_params-IsNamed uuid r.query p e3,
      λ restricted.
          elim (receiver_header-IsAllowed server.config (allowed_pulsar_urls server.config)
            r.headers rec e1) [ inl (_, any) ↦ any | inr (open_list, _, _) ↦ cc ],
    )
