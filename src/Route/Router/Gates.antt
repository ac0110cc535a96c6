-- ===== src/Route/Router/Gates.antt =====
-- What the router lets through.
use pulsar_beam.Prelude.{
  String, Bool, true, false, ◌||◌, Option, none, some, List, [], ◌∷◌, err, ◌≡◌, ◌≢◌, ◌⊎◌, refl,
  arith, All, Any, here, there, All-append, inl, inr,
}
use pulsar_beam.Middleware.{Sema, limit_rate, limit_rate_enter, limit_rate_leave, served}
use pulsar_beam.Middleware.Authentication.{granted, refused_lem}
use pulsar_beam.Route.Http.{Request, Handler, fresh, http_error}
use pulsar_beam.Route.Tables.{
  Route, AuthFunc, auth_verify_jwt, auth_header_required, no_auth, get_effective_routes,
}
use pulsar_beam.Route.Tables.Guards.{
  all_guarded, get_effective_routes-guarded, verifies, among, open_patterns,
}
use pulsar_beam.Route.Router.{
  Entry, Handlers, Mux, authenticated, route_entry, entries_of, profile_entries, profile_paths,
  new_router, limited, serve_http,
}

-- The paths that answer anybody.
abbrev pub is_open : String → Bool
is_open path = among open_patterns path || among profile_paths path

clash : (a b : Bool) → b ≡ true → (a || b) ≢ false
clash a b h e = ground arith

module _ {S : Type 0} (handlers : Handlers S) where
  -- The entry is open, or it answers every request that is granted no subject with 401, and leaves the
  -- state as it is.
  abbrev pub IsGate : Entry S → Type 0
  unfolding granted
  IsGate entry =
      is_open entry.path ≡ false
      → (r : Request) (s : S) (e : String)
      → granted handlers.config handlers.token_subject r ≡ err e
      → entry.handler r s ≡ (http_error "Unauthorized" 401 fresh, s)

  verified-IsGate :
      (a : AuthFunc) (h : Handler S) (r : Request) (s : S) (e : String)
      → verifies a ≡ true
      → granted handlers.config handlers.token_subject r ≡ err e
      → authenticated handlers.config handlers.token_subject a h r s
        ≡ (http_error "Unauthorized" 401 fresh, s)
  unfolding authenticated
  verified-IsGate auth_verify_jwt h r s e v refused =
      refused_lem handlers.config handlers.token_subject h r s e refused
  verified-IsGate auth_header_required h r s e v refused = cc
  verified-IsGate no_auth h r s e v refused = cc

  guarded-IsGate :
      (routes : List Route) → all_guarded routes ≡ true → All IsGate (entries_of handlers routes)
  unfolding route_entry entries_of IsGate
  guarded-IsGate [] g = tt
  guarded-IsGate (route ∷ routes) g = (
    λ closed r s e refused. verified-IsGate route.auth_func _ r s e (ground arith) refused,
    guarded-IsGate routes (ground arith),
  )

  profiles-IsGate :
      (paths : List String)
      → All (λ p. among profile_paths p ≡ true) paths
      → All IsGate (profile_entries handlers paths)
  unfolding IsGate
  profiles-IsGate [] _ = tt
  profiles-IsGate (path ∷ paths) (known, rest) = (
    λ closed. absurd (clash (among open_patterns path) _ known closed),
    profiles-IsGate paths rest,
  )

  pub new_router-IsGate : (mode : String) → All IsGate (new_router handlers mode)
  unfolding new_router
  new_router-IsGate mode =
      All-append IsGate (entries_of handlers (get_effective_routes mode))
        (profile_entries handlers profile_paths)
        (guarded-IsGate (get_effective_routes mode) (get_effective_routes-guarded mode))
        (profiles-IsGate profile_paths
          (refl, (refl, (refl, (refl, (refl, (refl, (refl, (refl, tt)))))))))

  found_among :
      (entries : List (Entry S)) (entry : Entry S)
      → All IsGate entries
      → Any (λ e. e ≡ entry) entries
      → IsGate entry
  found_among [] entry _ found = elim found [ ]
  found_among (x ∷ entries) entry (g, gates) (here e) = rw (← e) g
  found_among (x ∷ entries) entry (g, gates) (there later) = found_among entries entry gates later

  -- A request is given to an entry of the list.
  pub record IsMux (mux : Mux S) : Type 0 where
    pub matched :
        (entries : List (Entry S)) (r : Request) (entry : Entry S)
        → mux.matched entries r ≡ some entry
        → Any (λ e. e ≡ entry) entries

  limit_rate-refused :
      (h : Handler S) (r : Request) (s : S) (sema : Sema) (x : Option String × Sema)
      → h r s ≡ (http_error "Unauthorized" 401 fresh, s)
      → (sema' : Sema) × ((served h r s x ≡ (http_error "Unauthorized" 401 fresh, s, sema'))
          ⊎ (served h r s x ≡ (http_error "Too many requests" 429 fresh, s, sema')))
  unfolding limit_rate_leave
  limit_rate-refused h r s sema (some e, sema') refused = (limit_rate_leave sema', inr refl)
  limit_rate-refused h r s sema (none, sema') refused =
      (limit_rate_leave sema', inl (rw refused refl))

  -- In every mode, and for a router that gives a request only to an entry of its list, a request that is
  -- granted no subject and that is given to an entry whose
  -- path is not open is answered with 401, or with 429 under load, and changes nothing: the handler
  -- behind the entry does not see it. Open are the metrics, the status page, the first version of the
  -- receiver, and the profiles.
  pub serve_http-refused :
      (mux : Mux S) (mode : String) (r : Request) (s : S) (sema : Sema) (entry : Entry S)
      (e : String)
      → IsMux mux
      → mux.matched (new_router handlers mode) r ≡ some entry
      → is_open entry.path ≡ false
      → granted handlers.config handlers.token_subject r ≡ err e
      → (sema' : Sema) × ((serve_http handlers mux mode r s sema
            ≡ (http_error "Unauthorized" 401 fresh, s, sema'))
          ⊎ (serve_http handlers mux mode r s sema
              ≡ (http_error "Too many requests" 429 fresh, s, sema')))
  unfolding serve_http limit_rate IsGate limited
  serve_http-refused mux mode r s sema entry e lawful fits closed refused =
      let gate =
        found_among (new_router handlers mode) entry (new_router-IsGate mode)
          (lawful.matched (new_router handlers mode) r entry fits) in
      rw fits (
        limit_rate-refused entry.handler r s sema (limit_rate_enter sema)
          (gate closed r s e refused))
