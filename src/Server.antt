-- ===== src/Server.antt =====
-- create-server.ts and health-controller.ts: the routes, the chain of middlewares of each, and
-- what answers a request that no route matches.
use Prim.Native.String.{String}
use text.Mathlib.Text.{◌==◌ as str_eq}
use backend_java_spring_boot.Prelude.{
  ℕ, Bool, true, false, ◌&&◌, Option, none, some, List, [], ◌∷◌, if◌then◌else◌,
}
use backend_java_spring_boot.Domain.{Result, ok, err}
use backend_java_spring_boot.Http.{Response, respond, failure, no_body, status_body}
use backend_java_spring_boot.Web.{Request, Web, Turn, Site, pure}
use backend_java_spring_boot.Web.Compose.{RouteHandler, Middleware, compose, opened}
use backend_java_spring_boot.Web.Middlewares.{
  Limit, request_id, cors, security_headers, map_errors, authenticate, limit_rate,
}
use backend_java_spring_boot.Controllers.{Outside, Settings, Moment}
use backend_java_spring_boot.Controllers.Auth
use backend_java_spring_boot.Controllers.Rooms
use backend_java_spring_boot.Controllers.Messages
use backend_java_spring_boot.Controllers.Users
use backend_java_spring_boot.Controllers.Attachments
use backend_java_spring_boot.Ws.Gateway.{Reply, answered, raised, upgrade}
pub mod Total
pub mod Guards
pub mod Protected
pub mod Headers
pub mod Entry
pub mod Privacy
pub mod Signing
pub mod SignedIn
pub mod Attempts
mod Tests

-- The entries of `routes`, by method and path.
pub data Endpoint : Type 0 where
  health ready : Endpoint
  register login refresh : Endpoint
  confirm_verify_email request_reset confirm_reset : Endpoint
  logout me request_verify_email : Endpoint
  list_users get_me update_me get_user : Endpoint
  list_rooms create_room get_room delete_room add_member remove_member : Endpoint
  issue_ticket presign confirm : Endpoint
  list_messages send_message edit_message delete_message : Endpoint

-- The routes that no middleware stands before
abbrev pub is_probe : Endpoint → Bool
is_probe health = true
is_probe ready = true
is_probe _ = false

-- `GET /health`
abbrev pub health_handler : RouteHandler
health_handler req = pure (respond 200 (status_body "ok" none))

-- `GET /ready`; `down` is the message of what the queries of PostgreSQL and Redis raised.
abbrev pub ready_handler : (down : Option String) → RouteHandler
ready_handler none req = pure (respond 200 (status_body "ok" none))
ready_handler (some detail) req = pure (respond 503 (status_body "error" (some detail)))

module _ (out : Outside) (set : Settings) (moment : Moment) where
  -- `rateLimit` of a limit, now
  abbrev pub limited_by : Limit → Middleware
  limited_by = limit_rate out.zod.trim out.show moment.clocks.now moment.later

  abbrev pub base_and : List Middleware → List Middleware
  base_and ms =
      request_id ∷ cors set.cors_origins ∷ security_headers set.production ∷ map_errors ∷ ms

  -- `base`
  abbrev pub base : List Middleware
  base = base_and []

  abbrev pub base_limited : Limit → List Middleware
  base_limited limit = base_and (limited_by limit ∷ [])

  -- `baseAuth`
  abbrev pub base_auth : List Middleware
  base_auth = base_and (authenticate out.verify_access ∷ limited_by set.default_limit ∷ [])

  -- The handler of a route, with its middlewares around it
  unfoldable pub route : (down : Option String) → Endpoint → RouteHandler
  route down health = health_handler
  route down ready = ready_handler down
  route down register = compose (base_limited set.register_limit) (Auth.register out set moment)
  route down login = compose (base_limited set.login_limit) (Auth.login out set moment)
  route down refresh = compose (base_limited set.refresh_limit) (Auth.refresh out set moment)
  route down confirm_verify_email = compose base (Auth.confirm_verify_email out set moment)
  route down request_reset = compose base (Auth.request_reset out set moment)
  route down confirm_reset = compose base (Auth.confirm_reset out set moment)
  route down logout = compose base_auth (Auth.logout out set moment)
  route down me = compose base_auth (Auth.me out set moment)
  route down request_verify_email = compose base_auth (Auth.request_verify_email out set moment)
  route down list_users = compose base_auth (Users.list out moment)
  route down get_me = compose base_auth (Users.get_me out moment)
  route down update_me = compose base_auth (Users.update_me out moment)
  route down get_user = compose base_auth (Users.get_by_id out moment)
  route down list_rooms = compose base_auth (Rooms.list out moment)
  route down create_room = compose base_auth (Rooms.create out moment)
  route down get_room = compose base_auth (Rooms.get_one out moment)
  route down delete_room = compose base_auth (Rooms.delete out moment)
  route down add_member = compose base_auth (Rooms.add_member out moment)
  route down remove_member = compose base_auth (Rooms.remove_member out moment)
  route down issue_ticket = compose base_auth (Attachments.issue_ticket out set moment)
  route down presign = compose base_auth (Attachments.presign out set moment)
  route down confirm = compose base_auth (Attachments.confirm out set moment)
  route down list_messages = compose base_auth (Messages.list_by_room out moment)
  route down send_message = compose base_auth (Messages.send_to_room out moment)
  route down edit_message = compose base_auth (Messages.edit out moment)
  route down delete_message = compose base_auth (Messages.delete out moment)

  -- What the server makes of the end of a handler.
  abbrev pub reply_of : Result Response × Turn → Reply × Site
  reply_of (ok res, t) = (answered res, t.site)
  reply_of (err e, t) = (raised, t.site)

  abbrev pub is_socket_path : List String → Bool
  is_socket_path (a ∷ b ∷ []) = str_eq a "" && str_eq b "ws"
  is_socket_path _ = false

  -- `fetch`
  unfoldable pub fetch : (accepts : Bool) → Request → Site → Reply × Site
  unfolding cors upgrade
  fetch accepts req site =
      if is_socket_path req.path
      then upgrade out accepts moment.id moment.redis_now req site
      else if str_eq req.method "OPTIONS"
      then reply_of (cors set.cors_origins req (pure (respond 204 no_body)) (opened "" site))
      else (answered (failure 404 "Not Found"), site)

  -- A request, with the route that the router of Bun finds for its method and path
  unfoldable pub serve :
      (down : Option String) (accepts : Bool) → Option Endpoint → Request → Site → Reply × Site
  unfolding route fetch
  serve down accepts none req site = fetch accepts req site
  serve down accepts (some e) req site = reply_of (route down e req (opened moment.request_id site))
