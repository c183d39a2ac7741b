-- ===== src/Server/Protected.antt =====
-- Who gets to the handlers of create-server.ts that are behind `baseAuth`, and how the others are answered.
use Prim.Native.String.{String}
use text.Mathlib.Text.{◌==◌ as str_eq}
use backend_java_spring_boot.Prelude.{
  ℕ, ◌-◌, ◌≡◌, refl, Bool, true, false, Option, none, some, [], ◌∷◌,
}
use backend_java_spring_boot.Domain.{auth, rate_limit}
use backend_java_spring_boot.Http.{Response, error_mapper, mapped_error}
use backend_java_spring_boot.Web.{Request, Site}
use backend_java_spring_boot.Web.Compose.{RouteHandler, compose, opened, advance}
use backend_java_spring_boot.Web.Middlewares.{limit_rate}
use backend_java_spring_boot.Web.Chain.{nested}
use backend_java_spring_boot.Controllers.{Outside, Settings, Moment}
use backend_java_spring_boot.Ws.Gateway.{answered}
use backend_java_spring_boot.Server.{Endpoint, base_auth, route, serve, reply_of}
use backend_java_spring_boot.Server.Total.{entered, dressed, finished}
use backend_java_spring_boot.Server.Guards.{
  is_open, caller, counted, at_handler, protected-IsGuarded, behind-IsGuarded, unknown-refused,
  known-admitted, limit-allowed, limit-refused, dressed-status,
}

module _ (out : Outside) (set : Settings) (moment : Moment) where
  -- A call of a route that is not open to everybody, no preflight and without a token that the
  -- signer accepts, is answered with 401 and changes nothing.
  pub protected_refused :
      (down : Option String) (accepts : Bool) (e : Endpoint) (req : Request) (site : Site)
      → is_open e ≡ false
      → str_eq req.method "OPTIONS" ≡ false
      → caller out req ≡ none
      → (res : Response) × (serve out set moment down accepts (some e) req site
          ≡ (answered res, site))
        × (res.status ≡ 401)
  unfolding error_mapper mapped_error
  protected_refused down accepts e req site closed other unknown =
      let t = advance (entered req (opened moment.request_id site)) in
      let (h, served) = protected-IsGuarded out set moment down accepts e req site closed other in
      let (m, a) =
        unknown-refused out set moment req
          (nested
            (limit_rate out.zod.trim out.show moment.clocks.now moment.later set.default_limit ∷ [])
            h req)
          t unknown in
      (
        dressed set req t.request_id (mapped_error (auth m)),
        rw served (rw a refl),
        dressed-status out set moment req t.request_id (mapped_error (auth m)),
      )

  -- A call of a route that is not open to everybody, no preflight and with an accepted token of a
  -- user whose limit is used up, is answered with 429, and of the state only the count of the
  -- calls changes.
  pub protected_limited :
      (down : Option String) (accepts : Bool) (e : Endpoint) (req : Request) (site : Site)
      (user : ℕ)
      → is_open e ≡ false
      → str_eq req.method "OPTIONS" ≡ false
      → caller out req ≡ some user
      → (counted out set moment user req site).0.allowed ≡ false
      → (res : Response) × (serve out set moment down accepts (some e) req site
          ≡ (answered res, record site { hits = (counted out set moment user req site).1 }))
        × (res.status ≡ 429)
  unfolding error_mapper mapped_error
  protected_limited down accepts e req site user closed other known refused =
      let (h, served) = protected-IsGuarded out set moment down accepts e req site closed other in
      let after =
        mapped_error
          (rate_limit ((counted out set moment user req site).0.reset_at - moment.later)) in
      (
        dressed set req (at_handler out set moment user req site).request_id after,
        rw served (
            rw (known-admitted out set moment user req _ _ known)
              (rw (limit-refused out set moment user h req site refused) refl)),
        dressed-status out set moment req (at_handler out set moment user req site).request_id
            after,
      )

  -- A call of a route behind `baseAuth`, no preflight and with an accepted token of a user with
  -- some of the limit left, is what the handler of the route makes of it for the subject of the
  -- token, its errors mapped to responses and its response dressed with the headers of the shared
  -- middlewares.
  pub protected_admitted :
      (down : Option String) (accepts : Bool) (e : Endpoint) (h : RouteHandler) (req : Request)
      (site : Site) (user : ℕ)
      → route out set moment down e ≡ compose (base_auth out set moment) h
      → str_eq req.method "OPTIONS" ≡ false
      → caller out req ≡ some user
      → (counted out set moment user req site).0.allowed ≡ true
      → serve out set moment down accepts (some e) req site
        ≡ reply_of out set moment
            (finished set req (h req (at_handler out set moment user req site)))
  protected_admitted down accepts e h req site user shape other known allowed =
      rw (behind-IsGuarded out set moment down accepts e h req site shape other) (
        rw (known-admitted out set moment user req _ _ known)
          (rw (limit-allowed out set moment user h req site allowed) refl))
