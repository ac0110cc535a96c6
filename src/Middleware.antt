-- ===== src/Middleware.antt =====
-- src/middleware: authentication and the limit on the requests that are served at once.
pub mod Authentication
pub mod Limits
use Prim.Native.String.{len}
use pulsar_beam.Prelude.{
  ℕ, suc, ◌+◌, ◌-◌, String, Option, none, some, Result, ok, err, ltb, nat_eq, if◌then◌else◌, ◌==◌,
}
use pulsar_beam.Strings.{trim_space, replace_first}
use pulsar_beam.Util.{Configuration, first, header_get, header_set, super_role_list}
use pulsar_beam.Route.Http.{Request, Writer, Handler, fresh, http_error}

-- The text behind "Bearer" of the Authorization header.
unfoldable pub bearer : Request → String
unfolding trim_space replace_first header_get
bearer r = trim_space (replace_first (header_get r.headers "Authorization") "Bearer" "")

unfoldable pub inject : String → Request → Request
unfolding header_set
inject subjects r = record r { headers = header_set "injectedSubs" subjects r.headers }

module _ {S : Type 0} where
  abbrev verified : Handler S → Request → S → Result String → Writer × S
  verified next r s (ok subjects) = next (inject subjects r) s
  verified next r s (err e) = (http_error "Unauthorized" 401 fresh, s)

  -- `token_subject` is `JWTAuth.GetTokenSubject`.
  unfoldable pub auth_verify_jwt : Configuration → (String → Result String) → Handler S → Handler S
  unfolding super_role_list inject bearer
  auth_verify_jwt config token_subject next r s =
      if config.http_auth_impl == "noauth"
      then next (inject (first (super_role_list config)) r) s
      else verified next r s (token_subject (bearer r))

  unfoldable pub auth_header_required : Handler S → Handler S
  unfolding bearer
  auth_header_required next r s =
      if ltb 1 (len (bearer r)) then next r s else (http_error "Unauthorized" 401 fresh, s)

  unfoldable pub no_auth : Handler S → Handler S
  no_auth next r s = next r s

-- src/middleware/semaphore.go. The buffer of the channel holds `ch` of at most `size` elements.
pub record Sema : Type 0 where
  pub size : ℕ
  pub ch : ℕ

unfoldable pub new_sema : ℕ → Sema
new_sema length = record { size = length; ch = 0 }

unfoldable pub acquire : Sema → Option String × Sema
acquire s =
    if ltb s.ch s.size
    then (none, record s { ch = suc s.ch })
    else (some "all semaphore buffer full", s)

unfoldable pub release : Sema → Option String × Sema
release s =
    if ltb 0 s.ch
    then (none, record s { ch = s.ch - 1 })
    else (some "all semaphore buffer empty", s)

-- `LimitRate` in its two halves. It begins with `Acquire`, and serves the request if that gives no
-- error.
unfoldable pub limit_rate_enter : Sema → Option String × Sema
unfolding acquire
limit_rate_enter s = acquire s

-- It ends with `Release`, for the requests that it has served and for those that it has refused.
unfoldable pub limit_rate_leave : Sema → Sema
unfolding release
limit_rate_leave s = (release s).1

module _ {S : Type 0} where
  abbrev pub served : Handler S → Request → S → Option String × Sema → Writer × S × Sema
  served next r s (some e, sema) =
      (http_error "Too many requests" 429 fresh, s, limit_rate_leave sema)
  served next r s (none, sema) = let (w, s') = next r s in (w, s', limit_rate_leave sema)

  -- A request that nothing else interleaves with.
  unfoldable pub limit_rate : Handler S → Request → S → Sema → Writer × S × Sema
  unfolding limit_rate_enter limit_rate_leave
  limit_rate next r s sema = served next r s (limit_rate_enter sema)
