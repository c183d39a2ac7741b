-- ===== src/Server/Signing.antt =====
-- From the access token of a session to the handlers behind `baseAuth`, with the signer of
-- jose-token-signer.ts.
use Prim.Native.String
use Prim.Native.String.{String}
use text.Mathlib.Text.{◌==◌ as str_eq, starts_with}
use text.Mathlib.TextLemmas.{cons-append, nil-append}
use text.Mathlib.TextPositions.{starts_with-append}
use backend_java_spring_boot.Prelude.{
  ℕ, ◌+◌, ◌<◌, ◌≤◌, ◌≡◌, refl, sym, ap, ◌∙◌, Bool, true, false, Option, none, some, arith,
}
use backend_java_spring_boot.Domain.{Result, ok, err}
use backend_java_spring_boot.World.{World, Action, continue_with}
use backend_java_spring_boot.World
use backend_java_spring_boot.Store.RefreshTokens
use backend_java_spring_boot.Auth.Runtime.{Runtime, Config, Clocks, Draws, Meta, Tokens}
use backend_java_spring_boot.Auth.Session.{opened, create_session}
use backend_java_spring_boot.Auth.Signer.{
  AccessTokenClaims, Jose, IsJose, SignerConfig, second_of, sign_access, verify_access,
  verify_access-signed, verify_access-stale,
}
use backend_java_spring_boot.Json.{◌>>=◌}
use backend_java_spring_boot.Http.{Response}
use backend_java_spring_boot.Web.{Request, header, Site}
use backend_java_spring_boot.Web.Compose.{RouteHandler, compose}
use backend_java_spring_boot.Web.Middlewares.{slice, bearer}
use backend_java_spring_boot.Controllers.{Outside, Settings, Moment}
use backend_java_spring_boot.Ws.Gateway.{answered}
use backend_java_spring_boot.Server.{Endpoint, base_auth, route, serve, reply_of}
use backend_java_spring_boot.Server.Total.{finished}
use backend_java_spring_boot.Server.Guards.{is_open, caller, counted, at_handler}
use backend_java_spring_boot.Server.Protected.{protected_refused, protected_admitted}
mod Codec
mod Tests

sliced : (token : String) → slice 7 (String.◌++◌ "Bearer " token) ≡ token
sliced token =
    ap (slice 7) (cons-append "B" "earer " token)
    ∙ ap (slice 6) (cons-append "e" "arer " token)
    ∙ ap (slice 5) (cons-append "a" "rer " token)
    ∙ ap (slice 4) (cons-append "r" "er " token)
    ∙ ap (slice 3) (cons-append "e" "r " token)
    ∙ ap (slice 2) (cons-append "r" " " token)
    ∙ ap (slice 1) (cons-append " " "" token)
    ∙ nil-append token

bearer-token :
    (token : String)
    → str_eq token "" ≡ false
    → bearer (some (String.◌++◌ "Bearer " token)) ≡ some token
bearer-token token filled =
    rw (starts_with-append "Bearer " token) (rw (sliced token) (rw filled refl))

continue-result :
    {A : Type 0} (r : Result A × World) (a b : Tokens) (w : World)
    → continue_with r (λ _. World.pure a) ≡ (ok b, w)
    → a ≡ b
continue-result (ok x, v) a b w h = ground arith
continue-result (err e, v) a b w h = ground arith

-- A request that carries the access token of a session
abbrev pub Presents : Request → Tokens → Type 0
Presents req tokens = header "authorization" req ≡ some (String.◌++◌ "Bearer " tokens.access_token)

module _ (jose : Jose) (cfg : SignerConfig) (out : Outside) where
  -- The sessions with this signer
  abbrev pub signing : Runtime
  signing = record out.runtime {
    sign_access =
        λ sub jti now. sign_access jose cfg now (record { sub = out.show sub; jti = out.show jti });
  }

  -- The middlewares with this signer, at a time
  abbrev pub verifying : (now : ℕ) → Outside
  verifying now = record out {
    runtime = signing;
    verify_access = λ token. verify_access jose cfg now token >>= λ claims. out.shown claims.sub;
  }

  session-token :
      (sessions : Config) (clocks : Clocks) (draws : Draws) (user : ℕ) (meta : Meta) (w w' : World)
      (tokens : Tokens)
      → create_session signing sessions clocks draws user meta w ≡ (ok tokens, w')
      → sign_access jose cfg clocks.now (record { sub = out.show user; jti = out.show draws.jti })
        ≡ tokens.access_token
  unfolding create_session
  session-token sessions clocks draws user meta w w' tokens h =
      ap (λ t. t.access_token)
        (continue-result
          (RefreshTokens.insert clocks.db_now (opened signing sessions clocks draws user meta) w) _
          tokens w' h)

  module _ (good : IsJose jose) (shows : (n : ℕ) → out.shown (out.show n) ≡ some n) where
    signed-filled :
        (signed : ℕ) (claims : AccessTokenClaims)
        → str_eq (sign_access jose cfg signed claims) "" ≡ false
    unfolding sign_access
    signed-filled signed claims =
        good.filled cfg.access_secret claims.sub claims.jti (second_of signed)
          (second_of signed + cfg.access_ttl_sec)

    caller-presented :
        (now signed : ℕ) (claims : AccessTokenClaims) (req : Request)
        → header "authorization" req
          ≡ some (String.◌++◌ "Bearer " (sign_access jose cfg signed claims))
        → caller (verifying now) req ≡ (
            verify_access jose cfg now (sign_access jose cfg signed claims) >>= λ claims.
            out.shown claims.sub)
    caller-presented now signed claims req given =
        rw given (
          rw (bearer-token (sign_access jose cfg signed claims) (signed-filled signed claims)) refl)

    -- The claims of a session's token
    abbrev claims_for : (user jti : ℕ) → AccessTokenClaims
    claims_for user jti = record { sub = out.show user; jti = out.show jti }

    module _ (sessions : Config) (clocks : Clocks) (draws : Draws) (user : ℕ) (meta : Meta)
        (w w' : World) (tokens : Tokens)
        (open_session : create_session signing sessions clocks draws user meta w
          ≡ (ok tokens, w')) where
      session-caller :
          (now : ℕ) (req : Request)
          → Presents req tokens
          → caller (verifying now) req ≡ (
              verify_access jose cfg now
                (sign_access jose cfg clocks.now (claims_for user draws.jti))
              >>= λ claims. out.shown claims.sub)
      session-caller now req given =
          let token = session-token sessions clocks draws user meta w w' tokens open_session in
          caller-presented now clocks.now (claims_for user draws.jti) req
            (given ∙ ap (λ t. some (String.◌++◌ "Bearer " t)) (sym token))

      caller_in_time :
          (now : ℕ) (req : Request)
          → Presents req tokens
          → second_of now < second_of clocks.now + cfg.access_ttl_sec
          → caller (verifying now) req ≡ some user
      caller_in_time now req given early =
          session-caller now req given
          ∙ rw (verify_access-signed jose cfg good clocks.now now (claims_for user draws.jti) early)
              (shows user)

      caller_too_late :
          (now : ℕ) (req : Request)
          → Presents req tokens
          → second_of clocks.now + cfg.access_ttl_sec ≤ second_of now
          → caller (verifying now) req ≡ none
      caller_too_late now req given late =
          session-caller now req given
          ∙ rw (verify_access-stale jose cfg good clocks.now now (claims_for user draws.jti) late)
              refl

      -- With a signer that keeps jose's promises, where the text of a UUID reads as that UUID: a
      -- request, no preflight, for a route behind `baseAuth`, with the access token of a session
      -- that was opened for a user, made in a second before the lifetime of the token is over and
      -- with some of the user's limit left, is what the handler makes of it for that user.
      pub session_token_admits :
          (set : Settings) (moment : Moment) (down : Option String) (accepts : Bool) (e : Endpoint)
          (h : RouteHandler) (req : Request) (site : Site)
          → let here = verifying moment.clocks.now in
            route here set moment down e ≡ compose (base_auth here set moment) h
            → str_eq req.method "OPTIONS" ≡ false
            → Presents req tokens
            → second_of moment.clocks.now < second_of clocks.now + cfg.access_ttl_sec
            → (counted here set moment user req site).0.allowed ≡ true
            → serve here set moment down accepts (some e) req site
              ≡ reply_of here set moment
                  (finished set req (h req (at_handler here set moment user req site)))
      session_token_admits set moment down accepts e h req site shape other given early =
          protected_admitted (verifying moment.clocks.now) set moment down accepts e h req site user
            shape other (caller_in_time moment.clocks.now req given early)

      -- With the same signer, the request is answered with 401 and changes nothing where it is made
      -- in the second of the token's end or later, for any route that is not open to everybody.
      pub stale_token_refused :
          (set : Settings) (moment : Moment) (down : Option String) (accepts : Bool) (e : Endpoint)
          (req : Request) (site : Site)
          → is_open e ≡ false
          → str_eq req.method "OPTIONS" ≡ false
          → Presents req tokens
          → second_of clocks.now + cfg.access_ttl_sec ≤ second_of moment.clocks.now
          → (res : Response) × (serve
                (verifying moment.clocks.now)
                set
                moment
                down
                accepts
                (some e)
                req
                site
              ≡ (answered res, site))
            × (res.status ≡ 401)
      stale_token_refused set moment down accepts e req site closed other given late =
          protected_refused (verifying moment.clocks.now) set moment down accepts e req site closed
            other (caller_too_late moment.clocks.now req given late)
