-- ===== src/Server/Total.antt =====
-- What the four middlewares that all the routes of create-server.ts share come to around the
-- rest of a chain.
use Prim.Native.String.{String}
use text.Mathlib.Text.{◌==◌ as str_eq}
use backend_java_spring_boot.Prelude.{
  ◌⊎◌, ◌≡◌, refl, Bool, true, false, Option, some, List, [], ◌∷◌, All,
}
use backend_java_spring_boot.Domain.{Result, ok}
use backend_java_spring_boot.Http.{Response, words, error_mapper}
use backend_java_spring_boot.Web.{Request, Turn, Site}
use backend_java_spring_boot.Web.Compose.{RouteHandler, Middleware, compose, opened, advance}
use backend_java_spring_boot.Web.Middlewares.{
  request_id, cors, security_headers, map_errors, identified, set_header, with_cors, hardened,
  preflight, Limit, authenticate,
}
use backend_java_spring_boot.Web.Chain.{
  nested, CallsOnce, compose-nested, request_id-CallsOnce, cors-CallsOnce,
  security_headers-CallsOnce, map_errors-CallsOnce, authenticate-CallsOnce, limit_rate-CallsOnce,
}
use backend_java_spring_boot.Controllers.{Outside, Settings, Moment}
use backend_java_spring_boot.Server.{
  Endpoint, health, ready, register, login, refresh, confirm_verify_email, request_reset,
  confirm_reset, logout, me, request_verify_email, list_users, get_me, update_me, get_user,
  list_rooms, create_room, get_room, delete_room, add_member, remove_member, issue_ticket, presign,
  confirm, list_messages, send_message, edit_message, delete_message, is_probe, base_and,
  limited_by, route, reply_of, serve,
}

-- Where the rest of a chain starts.
abbrev pub entered : Request → Turn → Turn
entered req t = advance (advance (advance (identified req (advance t))))

-- A response on its way out of the shared middlewares.
abbrev pub dressed : Settings → Request → String → Response → Response
dressed set req id res =
    set_header "x-request-id" (words id)
      (with_cors set.cors_origins req (hardened set.production res))

abbrev pub finished : Settings → Request → Result Response × Turn → Result Response × Turn
finished set req r = (ok (dressed set req r.1.request_id (error_mapper r.0)), r.1)

module _ (out : Outside) (set : Settings) (moment : Moment) where
  base-CallsOnce :
      (ms : List Middleware) → All CallsOnce ms → All CallsOnce (base_and out set moment ms)
  base-CallsOnce ms once = (
    request_id-CallsOnce,
    (
      cors-CallsOnce set.cors_origins,
      (security_headers-CallsOnce set.production, (map_errors-CallsOnce, once)),
    ),
  )

  pub compose-finished :
      (ms : List Middleware) (h : RouteHandler) (req : Request) (id : String) (site : Site)
      → All CallsOnce ms
      → str_eq req.method "OPTIONS" ≡ false
      → compose (base_and out set moment ms) h req (opened id site)
        ≡ finished set req (nested ms h req (entered req (opened id site)))
  unfolding request_id cors security_headers map_errors
  compose-finished ms h req id site once other =
      rw
        (compose-nested (base_and out set moment ms) h req (opened id site) (base-CallsOnce ms once)
          refl)
        (rw other refl)

  pub compose-preflight :
      (ms : List Middleware) (h : RouteHandler) (req : Request) (id : String) (site : Site)
      → All CallsOnce ms
      → str_eq req.method "OPTIONS" ≡ true
      → compose (base_and out set moment ms) h req (opened id site) ≡ (
        ok (
            set_header "x-request-id"
              (words (identified req (opened id site)).request_id)
              (preflight set.cors_origins req)),
        advance (identified req (advance (opened id site))),
      )
  unfolding request_id cors
  compose-preflight ms h req id site once options =
      rw
        (compose-nested (base_and out set moment ms) h req (opened id site) (base-CallsOnce ms once)
          refl)
        (rw options refl)

  -- A handler behind the shared middlewares.
  abbrev pub IsBased : RouteHandler → Type 0
  IsBased r =
      (ms : List Middleware) × (h : RouteHandler) × (r ≡ compose (base_and out set moment ms) h)
      × All CallsOnce ms

  pub limited-CallsOnce : (limit : Limit) → CallsOnce (limited_by out set moment limit)
  limited-CallsOnce limit =
      limit_rate-CallsOnce out.zod.trim out.show moment.clocks.now moment.later limit

  pub auth-CallsOnce :
      All CallsOnce
        (authenticate out.verify_access ∷ limited_by out set moment set.default_limit ∷ [])
  auth-CallsOnce =
      (authenticate-CallsOnce out.verify_access, (limited-CallsOnce set.default_limit, tt))

  pub routed-IsBased :
      (down : Option String) (e : Endpoint)
      → is_probe e ≡ false
      → IsBased (route out set moment down e)
  unfolding route
  routed-IsBased down health h = absurd (cc)
  routed-IsBased down ready h = absurd (cc)
  routed-IsBased down register h = (_, _, refl, (limited-CallsOnce set.register_limit, tt))
  routed-IsBased down login h = (_, _, refl, (limited-CallsOnce set.login_limit, tt))
  routed-IsBased down refresh h = (_, _, refl, (limited-CallsOnce set.refresh_limit, tt))
  routed-IsBased down confirm_verify_email h = (_, _, refl, tt)
  routed-IsBased down request_reset h = (_, _, refl, tt)
  routed-IsBased down confirm_reset h = (_, _, refl, tt)
  routed-IsBased down logout h = (_, _, refl, auth-CallsOnce)
  routed-IsBased down me h = (_, _, refl, auth-CallsOnce)
  routed-IsBased down request_verify_email h = (_, _, refl, auth-CallsOnce)
  routed-IsBased down list_users h = (_, _, refl, auth-CallsOnce)
  routed-IsBased down get_me h = (_, _, refl, auth-CallsOnce)
  routed-IsBased down update_me h = (_, _, refl, auth-CallsOnce)
  routed-IsBased down get_user h = (_, _, refl, auth-CallsOnce)
  routed-IsBased down list_rooms h = (_, _, refl, auth-CallsOnce)
  routed-IsBased down create_room h = (_, _, refl, auth-CallsOnce)
  routed-IsBased down get_room h = (_, _, refl, auth-CallsOnce)
  routed-IsBased down delete_room h = (_, _, refl, auth-CallsOnce)
  routed-IsBased down add_member h = (_, _, refl, auth-CallsOnce)
  routed-IsBased down remove_member h = (_, _, refl, auth-CallsOnce)
  routed-IsBased down issue_ticket h = (_, _, refl, auth-CallsOnce)
  routed-IsBased down presign h = (_, _, refl, auth-CallsOnce)
  routed-IsBased down confirm h = (_, _, refl, auth-CallsOnce)
  routed-IsBased down list_messages h = (_, _, refl, auth-CallsOnce)
  routed-IsBased down send_message h = (_, _, refl, auth-CallsOnce)
  routed-IsBased down edit_message h = (_, _, refl, auth-CallsOnce)
  routed-IsBased down delete_message h = (_, _, refl, auth-CallsOnce)

  -- A probe, or a composed route whose answer is that of the nested middlewares
  abbrev pub IsNested : Option String → Bool → Endpoint → Request → Site → Type 0
  IsNested down accepts e req site =
      (is_probe e ≡ true)
      ⊎ ((ms : List Middleware) × (h : RouteHandler) × (route out set moment down e ≡ compose ms h)
          × (serve out set moment down accepts (some e) req site
              ≡ reply_of out set moment (nested ms h req (opened moment.request_id site))))
