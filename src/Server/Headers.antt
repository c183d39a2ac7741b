-- ===== src/Server/Headers.antt =====
-- The headers of the responses that leave the shared middlewares of create-server.ts.
use Prim.Native.String.{String}
use text.Mathlib.Text.{◌==◌ as str_eq}
use backend_java_spring_boot.Prelude.{
  ◌≡◌, refl, inl, inr, Bool, true, false, Bool-cases, Option, some, List, find?, map_some,
  if◌then◌else◌,
}
use backend_java_spring_boot.Http.{Response, HeaderValue, words, error_mapper}
use backend_java_spring_boot.Web.{Request, Site}
use backend_java_spring_boot.Web.Compose.{opened}
use backend_java_spring_boot.Web.Middlewares.{origin_allowed, origin_of}
use backend_java_spring_boot.Web.Chain.{nested}
use backend_java_spring_boot.Ws.Gateway.{answered}
use backend_java_spring_boot.Server.{Endpoint, serve, is_probe}
use backend_java_spring_boot.Server.Total.{entered, dressed, compose-finished, routed-IsBased}
use backend_java_spring_boot.Controllers.{Outside, Settings, Moment}

-- `res.headers.get(name)`
abbrev pub value_of : String → List (String × HeaderValue) → Option HeaderValue
value_of name hs = map_some (λ h. h.1) (find? (λ h. str_eq h.0 name) hs)

-- The four headers of securityHeaders that every environment sets
abbrev pub IsHardened : List (String × HeaderValue) → Type 0
IsHardened hs =
    (value_of "X-Content-Type-Options" hs ≡ some (words "nosniff"))
    × (value_of "X-Frame-Options" hs ≡ some (words "DENY"))
    × (value_of "Referrer-Policy" hs ≡ some (words "strict-origin-when-cross-origin"))
    × (value_of "Content-Security-Policy" hs
        ≡ some (
            words
              "default-src 'none'; base-uri 'none'; form-action 'none'; frame-ancestors 'none'"))

-- The two headers without which a browser keeps the response from a page of the origin
abbrev pub IsShared : String → List (String × HeaderValue) → Type 0
IsShared origin hs =
    (value_of "Access-Control-Allow-Origin" hs
      ≡ some (words (if str_eq origin "" then "*" else origin)))
    × (value_of "Access-Control-Allow-Credentials" hs ≡ some (words "true"))

module _ (set : Settings) (req : Request) (id : String) (res : Response) where
  dressed-IsHardened : IsHardened (dressed set req id res).headers
  dressed-IsHardened = elim (Bool-cases (origin_allowed set.cors_origins req)) [
    | inl a ↦ elim (Bool-cases set.production) [
      | inl p ↦ rw a (rw p (refl, refl, refl, refl))
      | inr p ↦ rw a (rw p (refl, refl, refl, refl))
    ]
    | inr d ↦ elim (Bool-cases set.production) [
      | inl p ↦ rw d (rw p (refl, refl, refl, refl))
      | inr p ↦ rw d (rw p (refl, refl, refl, refl))
    ]
  ]

  dressed-IsShared :
      origin_allowed set.cors_origins req ≡ true
      → IsShared (origin_of req) (dressed set req id res).headers
  dressed-IsShared a = rw a (refl, refl)

module _ (out : Outside) (set : Settings) (moment : Moment) where
  -- Every response of a route other than the two probes, those for errors too, to a request of an
  -- allowed origin that is no preflight carries an id of the request, the security headers, and
  -- the headers that let a page of that origin read it.
  pub served_headers :
      (down : Option String) (accepts : Bool) (e : Endpoint) (req : Request) (site : Site)
      → is_probe e ≡ false
      → str_eq req.method "OPTIONS" ≡ false
      → origin_allowed set.cors_origins req ≡ true
      → (res : Response) × (id : String) × ((serve out set moment down accepts (some e) req site).0
          ≡ answered res)
        × (value_of "x-request-id" res.headers ≡ some (words id))
        × IsHardened res.headers
        × IsShared (origin_of req) res.headers
  unfolding serve
  served_headers down accepts e req site routed other allowed =
      let (ms, h, shape, once) = routed-IsBased out set moment down e routed in
      let start = opened moment.request_id site in
      let r = nested ms h req (entered req start) in
      (
        dressed set req r.1.request_id (error_mapper r.0),
        r.1.request_id,
        rw shape
            (rw (compose-finished out set moment ms h req moment.request_id site once other) refl),
        refl,
        dressed-IsHardened set req r.1.request_id (error_mapper r.0),
        dressed-IsShared set req r.1.request_id (error_mapper r.0) allowed,
      )
