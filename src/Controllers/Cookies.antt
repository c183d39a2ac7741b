-- ===== src/Controllers/Cookies.antt =====
-- The refresh cookie of auth-controller.ts.
use Prim.Native.Char.{Char, code}
use Prim.Native.String.{String}
use text.Mathlib.Text.{◌==◌ as str_eq, starts_with}
use backend_java_spring_boot.Prelude.{
  ℕ, Bool, false, ◌||◌, ◌&&◌, Option, none, some, List, [], ◌∷◌, ◌++◌, any, map_some, or_else, leb,
  ◌==◌, if◌then◌else◌,
}
use backend_java_spring_boot.Http.{Response, HeaderValue, refresh_cookie}
use backend_java_spring_boot.Web.{Request, header}
use backend_java_spring_boot.Web.Middlewares.{slice, truthy, or_text}

-- `\s`, among the characters that a header can hold
abbrev pub is_space : Char → Bool
is_space c = (leb 9 (code c) && leb (code c) 13) || ((code c == 32) || (code c == 160))

abbrev pub skip_spaces : String → String
skip_spaces String.[] = ""
skip_spaces (String.◌∷◌ c s) = if is_space c then skip_spaces s else String.◌∷◌ c s

-- `[^;]*`
abbrev pub until_semicolon : String → String
until_semicolon String.[] = ""
until_semicolon (String.◌∷◌ c s) = if code c == 59 then "" else String.◌∷◌ c (until_semicolon s)

-- `rt=([^;]+)` at the start of a text
abbrev pub rt_value : String → Option String
rt_value s = if starts_with s "rt=" then truthy (some (until_semicolon (slice 3 s))) else none

-- `;\s*rt=([^;]+)`, the first one
abbrev pub rt_later : String → Option String
rt_later String.[] = none
rt_later (String.◌∷◌ c s) =
    if code c == 59 then or_else (rt_value (skip_spaces s)) (rt_later s) else rt_later s

-- `getRefreshFromCookie`; `trim` is `String.trim`.
unfoldable pub get_refresh_from_cookie : (trim : String → String) → Request → Option String
get_refresh_from_cookie trim req =
    let cookies = or_text (header "cookie" req) "" in
    map_some trim (or_else (rt_value cookies) (rt_later cookies))

abbrev pub append_header : String → HeaderValue → Response → Response
append_header name value res = record res { headers = res.headers ++ ((name, value) ∷ []) }

-- `setRefreshCookie`
abbrev pub set_refresh_cookie : (ttl_sec : ℕ) (production : Bool) → String → Response → Response
set_refresh_cookie ttl_sec production token res =
    append_header "Set-Cookie" (refresh_cookie token ttl_sec production) res

-- `clearRefreshCookie`
abbrev pub clear_refresh_cookie : (production : Bool) → Response → Response
clear_refresh_cookie production res =
    append_header "Set-Cookie" (refresh_cookie "" 0 production) res

abbrev pub starts_with_any : List String → Option String → Bool
starts_with_any origins none = false
starts_with_any origins (some origin) = any (λ o. starts_with origin o) origins

abbrev pub is_text : Option String → String → Bool
is_text none s = false
is_text (some t) s = str_eq t s

-- `isWebClient`
unfoldable pub is_web_client : (origins : List String) → Request → Bool
is_web_client origins req =
    is_text (header "x-client-type" req) "web" || starts_with_any origins (header "origin" req)
