-- ===== src/Controllers/Auth.antt =====
-- auth-controller.ts
use Prim.Native.String.{String}
use backend_java_spring_boot.Prelude.{⊤, Option, none, some, is_some, or_else, if◌then◌else◌}
use backend_java_spring_boot.Domain.{auth}
use backend_java_spring_boot.Json.{Json, obj, end}
use backend_java_spring_boot.Json.Schemas.{
  register_schema, login_schema, refresh_schema, verify_email_schema, request_password_reset_schema,
  confirm_password_reset_schema,
}
use backend_java_spring_boot.Auth.Session.{revoke_session}
use backend_java_spring_boot.Auth.Refresh.{refresh_session}
use backend_java_spring_boot.Auth.Credentials as Credentials
use backend_java_spring_boot.Auth.Credentials.{get_user}
use backend_java_spring_boot.Auth.EmailLinks.{
  request_email_verification, confirm_email_verification, request_password_reset,
  confirm_password_reset,
}
use backend_java_spring_boot.Http.{Response, respond, no_body, signed_body, tokens_body, user_body}
use backend_java_spring_boot.Web.{
  Request, Web, pure, or_raise, call, json_body, validate, current_user, ◌>>=◌, ◌>>◌,
}
use backend_java_spring_boot.Web.Compose.{RouteHandler}
use backend_java_spring_boot.Web.Middlewares.{truthy}
use backend_java_spring_boot.Controllers.{Outside, Settings, Moment, meta_of}
use backend_java_spring_boot.Controllers.Cookies.{
  get_refresh_from_cookie, set_refresh_cookie, clear_refresh_cookie, is_web_client,
}

-- `await req.json().catch(() => ({}))`
abbrev pub json_or_empty : Request → Json
json_or_empty req = elim req.json [ some j ↦ j | none ↦ obj end ]

module _ (out : Outside) (set : Settings) (moment : Moment) where
  -- `if (isWebClient(req)) setRefreshCookie(res, token)`
  abbrev pub for_web : Request → String → Response → Response
  for_web req token res =
      if is_web_client set.cors_origins req
      then set_refresh_cookie set.config.refresh_ttl_sec set.production token res
      else res

  -- `cookieToken ?? bodyToken`, where it is a token
  abbrev pub presented : Request → Option String → Option String
  presented req body = truthy (or_else (get_refresh_from_cookie out.zod.trim req) body)

  unfoldable pub register : RouteHandler
  register req = do
    j ← json_body req
    body ← validate out.zod "RegisterSchema" (register_schema out.zod) j
    signed ← call (
        Credentials.register out.runtime set.config moment.clocks moment.register (record {
          email = body.email;
          password = body.password;
          display_name = body.display_name;
          meta = meta_of req;
        }))
    pure (for_web req signed.tokens.refresh_token (respond 201 (signed_body signed)))

  unfoldable pub login : RouteHandler
  login req = do
    j ← json_body req
    body ← validate out.zod "LoginSchema" (login_schema out.zod) j
    signed ← call (
        Credentials.login out.runtime set.config moment.clocks moment.session
          (record { email = body.email; password = body.password; meta = meta_of req }))
    pure (for_web req signed.tokens.refresh_token (respond 200 (signed_body signed)))

  unfoldable pub refresh : RouteHandler
  refresh req = do
    body ← validate out.zod "RefreshSchema" (refresh_schema out.zod) (json_or_empty req)
    raw ← or_raise (presented req body) (auth "Missing refresh token")
    tokens ←
        call (refresh_session out.runtime set.config moment.clocks moment.session raw (meta_of req))
    pure (for_web req tokens.refresh_token (respond 200 (tokens_body tokens)))

  -- `if (rawToken) await this.deps.revokeSession.execute(rawToken)`
  abbrev pub revoke_presented : Option String → Web ⊤
  revoke_presented none = pure tt
  revoke_presented (some raw) = call (revoke_session out.runtime set.config moment.clocks raw)

  unfoldable pub logout : RouteHandler
  logout req = do
    body ← validate out.zod "RefreshSchema" (refresh_schema out.zod) (json_or_empty req)
    revoke_presented (presented req body)
    pure (
        if is_some (truthy (get_refresh_from_cookie out.zod.trim req))
        then clear_refresh_cookie set.production (respond 204 no_body)
        else respond 204 no_body)

  unfoldable pub me : RouteHandler
  me req = do
    user ← current_user
    public ← call (get_user user)
    pure (respond 200 (user_body public))

  unfoldable pub request_verify_email : RouteHandler
  request_verify_email req = do
    user ← current_user
    call (request_email_verification out.runtime set.config moment.clocks moment.link user)
    pure (respond 204 no_body)

  unfoldable pub confirm_verify_email : RouteHandler
  confirm_verify_email req = do
    j ← json_body req
    token ← validate out.zod "VerifyEmailSchema" (verify_email_schema out.zod) j
    call (confirm_email_verification out.runtime set.config moment.clocks token)
    pure (respond 204 no_body)

  unfoldable pub request_reset : RouteHandler
  request_reset req = do
    j ← json_body req
    email ← validate out.zod "RequestPasswordResetSchema" (request_password_reset_schema out.zod) j
    call (request_password_reset out.runtime set.config moment.clocks moment.link email)
    pure (respond 204 no_body)

  unfoldable pub confirm_reset : RouteHandler
  confirm_reset req = do
    j ← json_body req
    body ← validate out.zod "ConfirmPasswordResetSchema" (confirm_password_reset_schema out.zod) j
    call (
        confirm_password_reset out.runtime set.config moment.clocks moment.salt body.token
          body.new_password)
    pure (respond 204 no_body)
