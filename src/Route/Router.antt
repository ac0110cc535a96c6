-- ===== src/Route/Router.antt =====
-- `NewRouter` of src/route/router.go and `Logger` of src/route/logger.go: the chain of handlers that a
-- request passes.
pub mod Gates
use pulsar_beam.Prelude.{ℕ, String, Option, none, some, List, [], ◌∷◌, ◌++◌, Result, map}
use pulsar_beam.Util.{Configuration}
use pulsar_beam.Middleware.{Sema, limit_rate}
use pulsar_beam.Middleware
use pulsar_beam.Route.Http.{Request, Writer, Handler}
use pulsar_beam.Route.Tables.{
  Route, HandlerFunc, AuthFunc, auth_verify_jwt, auth_header_required, no_auth,
  get_effective_routes,
}

-- What is registered with the router. An entry without a method is for all of them.
pub record Entry (S : Type 0) : Type 0 where
  pub method : Option String
  pub path : String
  pub handler : Handler S

module _ {S : Type 0} where
  -- The line that is logged behind the request is left out.
  unfoldable pub logger : Handler S → String → Handler S
  logger inner name r s = inner r s

module _ {S : Type 0} (config : Configuration) (token_subject : String → Result String) where
  abbrev pub authenticated : AuthFunc → Handler S → Handler S
  unfolding Middleware.auth_verify_jwt Middleware.auth_header_required Middleware.no_auth
  authenticated auth_verify_jwt h = Middleware.auth_verify_jwt config token_subject h
  authenticated auth_header_required h = Middleware.auth_header_required h
  authenticated no_auth h = Middleware.no_auth h

-- The profiles of `net/http/pprof` that are registered, in this order.
abbrev pub profile_paths : List String
profile_paths =
    "/debug/pprof" ∷ "/debug/pprof/cmdline" ∷ "/debug/pprof/profile" ∷ "/debug/pprof/symbol"
    ∷ "/debug/pprof/heap" ∷ "/debug/pprof/block" ∷ "/debug/pprof/goroutine"
    ∷ "/debug/pprof/threadcreate" ∷ []

-- The handlers behind the router: those of the program by their names, and those of the profiles
-- by their paths.
pub record Handlers (S : Type 0) : Type 0 where
  pub config : Configuration
  pub token_subject : String → Result String
  pub handler_func : HandlerFunc → Handler S
  pub profile : String → Handler S

-- The router of the library: which entry a request is given to, the first one that fits being the
-- one, and the reply where there is none.
pub record Mux (S : Type 0) : Type 0 where
  pub matched : List (Entry S) → Request → Option (Entry S)
  pub unmatched : Handler S

module _ {S : Type 0} (handlers : Handlers S) where
  abbrev pub route_entry : Route → Entry S
  unfolding authenticated logger
  route_entry route = record {
    method = some route.method;
    path = route.pattern;
    handler =
        authenticated handlers.config handlers.token_subject route.auth_func
          (logger (handlers.handler_func route.handler_func) route.name);
  }

  abbrev pub profile_entry : String → Entry S
  profile_entry path = record { method = none; path = path; handler = handlers.profile path }

  abbrev pub entries_of : List Route → List (Entry S)
  unfolding route_entry
  entries_of [] = []
  entries_of (route ∷ routes) = route_entry route ∷ entries_of routes

  abbrev pub profile_entries : List String → List (Entry S)
  profile_entries [] = []
  profile_entries (path ∷ paths) = profile_entry path ∷ profile_entries paths

  unfoldable pub new_router : String → List (Entry S)
  unfolding entries_of get_effective_routes
  new_router mode = entries_of (get_effective_routes mode) ++ profile_entries profile_paths

  -- The limit is applied to the requests that fit an entry, before what authenticates them.
  abbrev pub limited :
      Request → S → Sema → Option (Entry S) → (Request → S → Writer × S) → Writer × S × Sema
  unfolding limit_rate
  limited r s sema none unmatched = let (w, s') = unmatched r s in (w, s', sema)
  limited r s sema (some entry) unmatched = limit_rate entry.handler r s sema

  -- `ServeHTTP` of the router.
  unfoldable pub serve_http : Mux S → String → Request → S → Sema → Writer × S × Sema
  unfolding new_router limited
  serve_http mux mode r s sema = limited r s sema (mux.matched (new_router mode) r) mux.unmatched
