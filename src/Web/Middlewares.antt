-- ===== src/Web/Middlewares.antt =====
-- request-id.ts, cors.ts, security-headers.ts, error-mapper.ts, auth.ts and rate-limit.ts of
-- src/infrastructure/http/middlewares
use Prim.Native.Char.{code}
use Prim.Native.String
use Prim.Native.String.{String}
use text.Mathlib.Text.{◌==◌ as str_eq, starts_with}
use backend_java_spring_boot.Prelude.{
  ℕ, zero, suc, ◌-◌, Bool, true, false, ◌||◌, Option, none, some, List, [], ◌∷◌, any, remove,
  or_else, map_some, ◌==◌, if◌then◌else◌,
}
use backend_java_spring_boot.Domain.{auth, rate_limit, ok}
use backend_java_spring_boot.Limits.{RateLimitResult}
use backend_java_spring_boot.Limits.Sliding
use backend_java_spring_boot.Http.{Response, HeaderValue, words, no_body, error_mapper}
use backend_java_spring_boot.Web.{
  Request, header, Turn, Web, proceed, pure, raise, gets, or_raise, ◌>>=◌,
}
use backend_java_spring_boot.Web.Compose.{Middleware}

-- `res.headers.set`
abbrev pub set_header : String → HeaderValue → Response → Response
set_header name value res = record res {
  headers = (name, value) ∷ remove (λ h. str_eq h.0 name) res.headers;
}

abbrev pub or_text : Option String → String → String
or_text none s = s
or_text (some t) s = t

-- `ctx.requestId = incoming ?? ctx.requestId`
abbrev pub identified : Request → Turn → Turn
identified req t = record t { request_id = or_text (header "x-request-id" req) t.request_id }

-- `requestId`
unfoldable pub request_id : Middleware
request_id req next t =
    proceed (next (identified req t))
      (λ res. gets (λ u. set_header "x-request-id" (words u.request_id) res))

-- `buildCorsHeaders`
abbrev pub cors_headers : String → Request → List (String × HeaderValue)
cors_headers origin req =
    ("Access-Control-Allow-Origin", words (if str_eq origin "" then "*" else origin))
    ∷ ("Access-Control-Allow-Methods", words "GET,POST,PUT,PATCH,DELETE,OPTIONS")
    ∷ (
      "Access-Control-Allow-Headers",
      words (
          or_text (header "access-control-request-headers" req)
            "Content-Type,Authorization,X-Client-Type,X-Request-ID"),
    )
    ∷ ("Access-Control-Allow-Credentials", words "true")
    ∷ ("Access-Control-Max-Age", words "86400")
    ∷ []

-- The loop over `Object.entries`.
abbrev pub set_headers : List (String × HeaderValue) → Response → Response
set_headers [] res = res
set_headers (h ∷ hs) res = set_headers hs (set_header h.0 h.1 res)

abbrev pub no_origins : List String → Bool
no_origins [] = true
no_origins (o ∷ os) = false

abbrev pub origin_of : Request → String
origin_of req = or_text (header "origin" req) ""

-- `isAllowed`
abbrev pub origin_allowed : List String → Request → Bool
origin_allowed origins req = no_origins origins || any (λ o. str_eq o (origin_of req)) origins

abbrev pub preflight : List String → Request → Response
preflight origins req = record {
  status = 204;
  body = no_body;
  headers = cors_headers (if origin_allowed origins req then origin_of req else "") req;
}

abbrev pub with_cors : List String → Request → Response → Response
with_cors origins req res =
    if origin_allowed origins req then set_headers (cors_headers (origin_of req) req) res else res

-- `cors`
unfoldable pub cors : List String → Middleware
cors origins req next t =
    if str_eq req.method "OPTIONS"
    then (ok (preflight origins req), t)
    else proceed (next t) (λ res. pure (with_cors origins req res))

abbrev pub hardened : (production : Bool) → Response → Response
hardened production res =
    let sealed =
      set_header "Content-Security-Policy"
        (words "default-src 'none'; base-uri 'none'; form-action 'none'; frame-ancestors 'none'")
        (set_header "Referrer-Policy" (words "strict-origin-when-cross-origin") (
          set_header "X-Frame-Options" (words "DENY")
            (set_header "X-Content-Type-Options" (words "nosniff") res))) in
    if production
    then set_header "Strict-Transport-Security" (words "max-age=31536000; includeSubDomains") sealed
    else sealed

-- `securityHeaders`
unfoldable pub security_headers : (production : Bool) → Middleware
security_headers production req next t = proceed (next t) (λ res. pure (hardened production res))

-- `errorMapper`
unfoldable pub map_errors : Middleware
map_errors req next t = (ok (error_mapper (next t).0), (next t).1)

-- `s.slice(n)`
abbrev pub slice : ℕ → String → String
slice zero s = s
slice (suc n) String.[] = ""
slice (suc n) (String.◌∷◌ c s) = slice n s

-- A text as JavaScript tests it: the empty one is false.
abbrev pub truthy : Option String → Option String
truthy none = none
truthy (some s) = if str_eq s "" then none else some s

abbrev pub bearer : Option String → Option String
bearer none = none
bearer (some h) = truthy (if starts_with h "Bearer " then some (slice 7 h) else none)

-- `authMiddleware`; `verify` is `tokenSigner.verifyAccess`, for the subject of the claims.
unfoldable pub authenticate : (verify : String → Option ℕ) → Middleware
authenticate verify req next = do
  token ← or_raise (bearer (header "authorization" req)) (auth "Missing authorization token")
  sub ← or_raise (verify token) (auth "Invalid or expired token")
  λ t. next (record t { user_id = some sub })

-- `s.split(",")[0]`
abbrev pub before_comma : String → String
before_comma String.[] = ""
before_comma (String.◌∷◌ c s) = if code c == 44 then "" else String.◌∷◌ c (before_comma s)

-- The address that a request comes from. `trim` is `String.trim`.
abbrev pub address_of : (trim : String → String) → Request → String
address_of trim req =
    or_text
      (or_else (map_some (λ s. trim (before_comma s)) (header "x-forwarded-for" req))
        (header "x-real-ip" req))
      "unknown"

-- The subject that a limit counts for. `show` is the text of a user's id.
abbrev pub subject_of :
    (trim : String → String) (show : ℕ → String) (by_user : Bool) → Request → Option ℕ → String
subject_of trim show true req (some user) = show user
subject_of trim show true req none = address_of trim req
subject_of trim show false req user = address_of trim req

pub record Limit : Type 0 where
  pub key : String
  pub max : ℕ
  pub window_sec : ℕ
  pub by_user : Bool

-- `result.allowed`, and `next`; `later` is the second at which `retryAfter` is computed.
abbrev pub let_in : RateLimitResult → (later : ℕ) → Web Response → Web Response
let_in result later next =
    if result.allowed then next else raise (rate_limit (result.reset_at - later))

-- The key that is counted
abbrev pub limit_key :
    (trim : String → String) (show : ℕ → String) → Limit → Request → Turn → String
limit_key trim show limit req t =
    String.◌++◌ limit.key (String.◌++◌ ":" (subject_of trim show limit.by_user req t.user_id))

abbrev pub with_hits : List Sliding.Hit → Turn → Turn
with_hits hits t = record t { site = record t.site { hits = hits } }

-- `rateLimit`, with the limiter on Redis at the millisecond `now`
unfoldable pub limit_rate :
    (trim : String → String) (show : ℕ → String) (now later : ℕ) → Limit → Middleware
limit_rate trim show now later limit req next t =
    let key = limit_key trim show limit req t in
    let answer = Sliding.consume now key limit.max limit.window_sec t.site.hits in
    let_in answer.0 later next (with_hits answer.1 t)
