-- ===== src/Server/Attempts.antt =====
-- How many logins from one address get to the password: `POST /api/v1/auth/login` of
-- create-server.ts, with its limit.
use Prim.Native.String
use Prim.Native.String.{String}
use text.Mathlib.Text.{◌==◌ as str_eq}
use backend_java_spring_boot.Prelude.{
  ℕ, ◌+◌, ◌*◌, ◌-◌, ◌≤◌, ◌<◌, ◌≡◌, refl, ap, ◌∙◌, Bool, true, false, ◌&&◌, not, Bool-cases, inl,
  inr, Option, none, some, List, [], ◌∷◌, map, All, ◌==◌, if◌then◌else◌, arith,
}
use backend_java_spring_boot.Domain.{Result, err, rate_limit}
use backend_java_spring_boot.World.{World}
use backend_java_spring_boot.Limits.{Call, RateLimitResult}
use backend_java_spring_boot.Limits.Sliding
use backend_java_spring_boot.Limits.Sliding.{let_through, sliding_bound}
use backend_java_spring_boot.Http.{Response, mapped_error, error_mapper}
use backend_java_spring_boot.Web.{Request, Site, Turn, Web}
use backend_java_spring_boot.Web.Compose.{opened, advance}
use backend_java_spring_boot.Web.Middlewares.{subject_of, with_hits, limit_rate}
use backend_java_spring_boot.Web.Chain.{nested}
use backend_java_spring_boot.Controllers.{Outside, Settings, Moment}
use backend_java_spring_boot.Controllers.Auth as Auth
use backend_java_spring_boot.Ws.Gateway.{Reply, answered}
use backend_java_spring_boot.Server.{login, limited_by, route, serve, reply_of}
use backend_java_spring_boot.Server.Total.{entered, finished, compose-finished, limited-CallsOnce}
use backend_java_spring_boot.Server.Guards.{dressed-status}

-- A part of a handler that leaves the counted calls alone.
abbrev KeepsHits : {A : Type 0} → Web A → Type 0
KeepsHits m = (t : Turn) → (m t).1.site.hits ≡ t.site.hits

-- A login, and what the tables are when it comes in: other requests may have changed them.
pub record Attempt : Type 0 where
  pub tables : World
  pub moment : Moment
  pub request : Request

module _ (out : Outside) (set : Settings) where
  login-KeepsHits : (moment : Moment) (req : Request) → KeepsHits (Auth.login out set moment req)
  unfolding Auth.login
  login-KeepsHits moment req t = ground arith

  -- The key that a login is counted under
  abbrev pub login_key : Request → String
  login_key req =
      String.◌++◌ set.login_limit.key
        (String.◌++◌ ":" (subject_of out.zod.trim out.show set.login_limit.by_user req none))

  -- How the limiter counts a login.
  abbrev pub login_count : Moment → Request → Site → RateLimitResult × List Sliding.Hit
  login_count moment req site =
      Sliding.consume moment.clocks.now (login_key req) set.login_limit.max
        set.login_limit.window_sec site.hits

  abbrev pub is_too_many : Reply → Bool
  is_too_many (answered res) = res.status == 429
  is_too_many _ = false

  -- The limiter, and what it lets through
  abbrev guarded : Moment → Request → Site → Result Response × Turn
  guarded moment req site =
      nested (limited_by out set moment set.login_limit ∷ []) (Auth.login out set moment) req
        (entered req (opened moment.request_id site))

  served :
      (moment : Moment) (down : Option String) (accepts : Bool) (req : Request) (site : Site)
      → str_eq req.method "OPTIONS" ≡ false
      → serve out set moment down accepts (some login) req site
        ≡ reply_of out set moment (finished set req (guarded moment req site))
  unfolding serve route
  served moment down accepts req site other =
      rw
        (compose-finished out set moment (limited_by out set moment set.login_limit ∷ [])
          (Auth.login out set moment) req moment.request_id site
          (limited-CallsOnce out set moment set.login_limit, tt) other)
        refl

  -- A login is counted, whatever comes of it, and one that the limiter refuses is answered 429.
  guarded-counts :
      (moment : Moment) (req : Request) (site : Site)
      → (guarded moment req site).1.site.hits ≡ (login_count moment req site).1
  unfolding limit_rate
  guarded-counts moment req site =
      let counted = login_count moment req site in
      let turn = with_hits counted.1 (advance (entered req (opened moment.request_id site))) in
      elim (Bool-cases counted.0.allowed) [
        | inl allowed ↦ rw allowed (login-KeepsHits moment req (advance turn))
        | inr refused ↦ rw refused refl
      ]

  guarded-refuses :
      (moment : Moment) (req : Request) (site : Site)
      → (login_count moment req site).0.allowed ≡ false
      → (guarded moment req site).0
        ≡ err (rate_limit ((login_count moment req site).0.reset_at - moment.later))
  unfolding limit_rate
  guarded-refuses moment req site refused = rw refused refl

  -- The limiter's part of an answer
  login-counts :
      (moment : Moment) (down : Option String) (accepts : Bool) (req : Request) (site : Site)
      → str_eq req.method "OPTIONS" ≡ false
      → let (reply, after) = serve out set moment down accepts (some login) req site in
        (after.hits ≡ (login_count moment req site).1)
        × ((login_count moment req site).0.allowed ≡ false → is_too_many reply ≡ true)
  unfolding error_mapper mapped_error
  login-counts moment down accepts req site other = rw (served moment down accepts req site other) (
    guarded-counts moment req site,
    λ refused.
        let id = (guarded moment req site).1.request_id in
        ap (λ n. n == 429)
          (dressed-status out set moment req id (error_mapper (guarded moment req site).0)
            ∙ ap (λ r. (error_mapper r).status) (guarded-refuses moment req site refused)),
  )

  abbrev call_of : Attempt → Call
  call_of x = record { now = x.moment.clocks.now; key = login_key x.request }

  -- How many logins of a key are answered with anything but 429
  abbrev pub tried : (down : Option String) (accepts : Bool) → String → List Attempt → Site → ℕ
  tried down accepts key [] site = 0
  tried down accepts key (x ∷ xs) site =
      let before = record site { world = x.tables } in
      let served = serve out set x.moment down accepts (some login) x.request before in
      (if str_eq (login_key x.request) key && not (is_too_many served.0) then 1 else 0)
      + tried down accepts key xs served.1

  tried-let_through :
      (down : Option String) (accepts : Bool) (key : String) (xs : List Attempt) (site : Site)
      → All (λ x. str_eq x.request.method "OPTIONS" ≡ false) xs
      → tried down accepts key xs site
        ≤ let_through key set.login_limit.max set.login_limit.window_sec (map call_of xs) site.hits
  tried-let_through down accepts key [] site h = omega arith
  tried-let_through down accepts key (x ∷ xs) site (other, rest) =
      let before : Site = record site { world = x.tables } in
      let (hits, refuses) = login-counts x.moment down accepts x.request before other in
      let after = (serve out set x.moment down accepts (some login) x.request before).1 in
      let ih = tried-let_through down accepts key xs after rest in
      ground (arith, rw hits at ih, refuses)

  login-times :
      (start : ℕ) (xs : List Attempt)
      → let until = start + set.login_limit.window_sec * 1000 in
        All (λ x. (start ≤ x.moment.clocks.now) × (x.moment.clocks.now < until)) xs
        → All (λ c. (start ≤ c.now) × (c.now < until)) (map call_of xs)
  login-times start [] h = tt
  login-times start (x ∷ xs) (h, hs) = (h, login-times start xs hs)

  -- Of the logins that come in within one window of the login limit, none of them a preflight, at
  -- most as many of one address (the key that they are counted under) are answered with anything
  -- but 429 as the limit says: in whatever order they come, whatever calls were counted before, and
  -- whatever changes the tables in between.
  pub login_bound :
      (down : Option String) (accepts : Bool) (key : String) (start : ℕ) (xs : List Attempt)
      (site : Site)
      → All (λ x. str_eq x.request.method "OPTIONS" ≡ false) xs
      → All
          (λ x.
            (start ≤ x.moment.clocks.now)
            × (x.moment.clocks.now < start + set.login_limit.window_sec * 1000))
          xs
      → tried down accepts key xs site ≤ set.login_limit.max
  login_bound down accepts key start xs site other times = omega (
    arith,
    tried-let_through down accepts key xs site other,
    sliding_bound key set.login_limit.max set.login_limit.window_sec start (map call_of xs)
        site.hits (login-times start xs times),
  )
