-- ===== src/Server/Guards.antt =====
-- What stands before the handlers of create-server.ts that are behind `baseAuth`.
use Prim.Native.String
use Prim.Native.String.{String}
use text.Mathlib.Text.{◌==◌ as str_eq}
use backend_java_spring_boot.Prelude.{
  ℕ, ◌-◌, ◌≡◌, refl, inl, inr, Bool, true, false, Bool-cases, Option, none, some, List, [], ◌∷◌,
  Option-cases,
}
use backend_java_spring_boot.Domain.{Result, err, auth, rate_limit}
use backend_java_spring_boot.Limits.{RateLimitResult}
use backend_java_spring_boot.Limits.Sliding
use backend_java_spring_boot.Json.{◌>>=◌}
use backend_java_spring_boot.Http.{Response}
use backend_java_spring_boot.Web.{Request, Web, Turn, Site, header}
use backend_java_spring_boot.Web.Compose.{RouteHandler, compose, opened, advance}
use backend_java_spring_boot.Web.Middlewares.{
  authenticate, limit_rate, bearer, subject_of, origin_allowed,
}
use backend_java_spring_boot.Web.Chain.{nested}
use backend_java_spring_boot.Controllers.{Outside, Settings, Moment}
use backend_java_spring_boot.Server.{
  Endpoint, health, ready, register, login, refresh, confirm_verify_email, request_reset,
  confirm_reset, logout, me, request_verify_email, list_users, get_me, update_me, get_user,
  list_rooms, create_room, get_room, delete_room, add_member, remove_member, issue_ticket, presign,
  confirm, list_messages, send_message, edit_message, delete_message, base_auth, route, serve,
  reply_of,
}
use backend_java_spring_boot.Server.Total.{
  entered, dressed, finished, compose-finished, auth-CallsOnce,
}

-- The routes that anybody may call
abbrev pub is_open : Endpoint → Bool
is_open health = true
is_open ready = true
is_open register = true
is_open login = true
is_open refresh = true
is_open confirm_verify_email = true
is_open request_reset = true
is_open confirm_reset = true
is_open _ = false

-- Who a request comes from, by its bearer token.
abbrev pub caller : Outside → Request → Option ℕ
caller out req = bearer (header "authorization" req) >>= out.verify_access

-- A handler at the turn of a user, after the call was counted.
abbrev pub admitted : (user : ℕ) → List Sliding.Hit → Turn → Turn
admitted user hits t = record (advance (advance (advance t))) {
  user_id = some user;
  site = record t.site { hits = hits };
}

module _ (out : Outside) (set : Settings) (moment : Moment) where
  protected-route :
      (down : Option String) (e : Endpoint)
      → is_open e ≡ false
      → (h : RouteHandler) × (route out set moment down e ≡ compose (base_auth out set moment) h)
  unfolding route
  protected-route down health h = absurd (cc)
  protected-route down ready h = absurd (cc)
  protected-route down register h = absurd (cc)
  protected-route down login h = absurd (cc)
  protected-route down refresh h = absurd (cc)
  protected-route down confirm_verify_email h = absurd (cc)
  protected-route down request_reset h = absurd (cc)
  protected-route down confirm_reset h = absurd (cc)
  protected-route down logout h = (_, refl)
  protected-route down me h = (_, refl)
  protected-route down request_verify_email h = (_, refl)
  protected-route down list_users h = (_, refl)
  protected-route down get_me h = (_, refl)
  protected-route down update_me h = (_, refl)
  protected-route down get_user h = (_, refl)
  protected-route down list_rooms h = (_, refl)
  protected-route down create_room h = (_, refl)
  protected-route down get_room h = (_, refl)
  protected-route down delete_room h = (_, refl)
  protected-route down add_member h = (_, refl)
  protected-route down remove_member h = (_, refl)
  protected-route down issue_ticket h = (_, refl)
  protected-route down presign h = (_, refl)
  protected-route down confirm h = (_, refl)
  protected-route down list_messages h = (_, refl)
  protected-route down send_message h = (_, refl)
  protected-route down edit_message h = (_, refl)
  protected-route down delete_message h = (_, refl)

  pub dressed-status :
      (req : Request) (id : String) (res : Response) → (dressed set req id res).status ≡ res.status
  dressed-status req id res = elim (Bool-cases (origin_allowed set.cors_origins req)) [
    | inl a ↦ elim (Bool-cases set.production) [
      | inl p ↦ rw a (rw p refl)
      | inr p ↦ rw a (rw p refl)
    ]
    | inr d ↦ elim (Bool-cases set.production) [
      | inl p ↦ rw d (rw p refl)
      | inr p ↦ rw d (rw p refl)
    ]
  ]

  -- The key that the calls of a user are counted under
  abbrev pub key_of : ℕ → Request → String
  key_of user req =
      String.◌++◌ set.default_limit.key (
        String.◌++◌ ":"
          (subject_of out.zod.trim out.show set.default_limit.by_user req (some user)))

  -- How the limiter counts a call of a user.
  abbrev pub counted : ℕ → Request → Site → RateLimitResult × List Sliding.Hit
  counted user req site =
      Sliding.consume moment.clocks.now (key_of user req) set.default_limit.max
        set.default_limit.window_sec site.hits

  -- The turn at which the handler of a request is called.
  abbrev pub at_handler : ℕ → Request → Site → Turn
  at_handler user req site =
      admitted user (counted user req site).1 (entered req (opened moment.request_id site))

  -- A route behind `baseAuth`, up to its check of the token.
  abbrev pub IsGuarded :
      Option String → (accepts : Bool) → Endpoint → RouteHandler → Request → Site → Type 0
  IsGuarded down accepts e h req site =
      serve out set moment down accepts (some e) req site
      ≡ reply_of out set moment (
          finished set req (
            authenticate out.verify_access req
              (nested
                (limit_rate out.zod.trim out.show moment.clocks.now moment.later set.default_limit
                  ∷ [])
                h req)
              (advance (entered req (opened moment.request_id site)))))

  pub behind-IsGuarded :
      (down : Option String) (accepts : Bool) (e : Endpoint) (h : RouteHandler) (req : Request)
      (site : Site)
      → route out set moment down e ≡ compose (base_auth out set moment) h
      → str_eq req.method "OPTIONS" ≡ false
      → IsGuarded down accepts e h req site
  unfolding serve
  behind-IsGuarded down accepts e h req site shape other = rw shape (
      rw
        (compose-finished out set moment _ h req moment.request_id site
          (auth-CallsOnce out set moment) other)
        refl)

  pub protected-IsGuarded :
      (down : Option String) (accepts : Bool) (e : Endpoint) (req : Request) (site : Site)
      → is_open e ≡ false
      → str_eq req.method "OPTIONS" ≡ false
      → (h : RouteHandler) × IsGuarded down accepts e h req site
  protected-IsGuarded down accepts e req site closed other =
      let (h, shape) = protected-route down e closed in
      (h, behind-IsGuarded down accepts e h req site shape other)

  pub unknown-refused :
      (req : Request) (n : Web Response) (t : Turn)
      → caller out req ≡ none
      → (m : String) × (authenticate out.verify_access req n t ≡ (err (auth m), t))
  unfolding authenticate
  unknown-refused req n t h = elim (Option-cases (bearer (header "authorization" req))) [
    | inl b ↦ ("Missing authorization token", rw b refl)
    | inr (token, b) ↦ ("Invalid or expired token", rw b (rw (rw b at h) refl))
  ]

  pub known-admitted :
      (user : ℕ) (req : Request) (n : Web Response) (t : Turn)
      → caller out req ≡ some user
      → authenticate out.verify_access req n t ≡ n (record t { user_id = some user })
  unfolding authenticate
  known-admitted user req n t h = elim (Option-cases (bearer (header "authorization" req))) [
    | inl b ↦ absurd (cc (rw b at h))
    | inr (token, b) ↦ rw b (rw (rw b at h) refl)
  ]

  -- Where the chain of a protected route stands when its limit is checked.
  abbrev limit_checked : ℕ → RouteHandler → Request → Site → Result Response × Turn
  limit_checked user h req site =
      nested
        (limit_rate out.zod.trim out.show moment.clocks.now moment.later set.default_limit ∷ []) h
        req (record (advance (entered req (opened moment.request_id site))) { user_id = some user })

  pub limit-allowed :
      (user : ℕ) (h : RouteHandler) (req : Request) (site : Site)
      → (counted user req site).0.allowed ≡ true
      → limit_checked user h req site ≡ h req (at_handler user req site)
  unfolding limit_rate
  limit-allowed user h req site allowed = rw allowed refl

  pub limit-refused :
      (user : ℕ) (h : RouteHandler) (req : Request) (site : Site)
      → (counted user req site).0.allowed ≡ false
      → limit_checked user h req site ≡ (
        err (rate_limit ((counted user req site).0.reset_at - moment.later)),
        record (at_handler user req site) { cursor = 6 },
      )
  unfolding limit_rate
  limit-refused user h req site refused = rw refused refl
