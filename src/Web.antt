-- ===== src/Web.antt =====
-- A request on its way through the server: what it carries, the state that a handler works on, and
-- the calls that change it.
use Prim.Native.String.{String}
use text.Mathlib.Text.{◌==◌ as str_eq}
use backend_java_spring_boot.Prelude.{ℕ, ⊤, Option, none, some, List, ◌∷◌, find?, map_some}
use backend_java_spring_boot.Domain.{Error, fault, validation, Result, ok, err}
use backend_java_spring_boot.World.{World, Action}
use backend_java_spring_boot.Limits.Sliding.{Hit}
use backend_java_spring_boot.Tickets.{Ticket}
use backend_java_spring_boot.Presence.{Presence}
use backend_java_spring_boot.Json.{Json, Zod}
use backend_java_spring_boot.Http.{Response}
pub mod Compose
pub mod Middlewares
pub mod Chain
mod Tests

-- A `Request` of the platform. The names of headers are in lower case; the URL is the list of its
-- parts between slashes, its query the list of its parameters.
pub record Request : Type 0 where
  pub method : String
  pub url : List String
  pub path : List String
  pub query : List (String × String)
  pub headers : List (String × String)
  -- the JSON of the body; `none` where `req.json()` raises
  pub json : Option Json

-- `req.headers.get(name)`
abbrev pub header : String → Request → Option String
header name req = map_some (λ h. h.1) (find? (λ h. str_eq h.0 name) req.headers)

-- `url.searchParams.get(name)`
abbrev pub param : String → Request → Option String
param name req = map_some (λ p. p.1) (find? (λ p. str_eq p.0 name) req.query)

-- What the requests share: the tables, and the keys of Redis.
pub record Site : Type 0 where
  pub world : World
  pub hits : List Hit
  pub tickets : List Ticket
  pub presence : Presence

-- The state during one request: `ReqCtx`, and the counter `i` of `compose`.
pub record Turn : Type 0 where
  pub site : Site
  pub request_id : String
  pub user_id : Option ℕ
  pub cursor : ℕ

abbrev pub Web : Type 0 → Type 0
Web A = Turn → Result A × Turn

-- What follows a call, on how the call ended.
abbrev pub proceed : {A B : Type 0} → Result A × Turn → (A → Web B) → Result B × Turn
proceed (ok a, t) f = f a t
proceed (err e, t) f = (err e, t)

infixl 5 ◌>>=◌ ◌>>◌
abbrev pub ◌>>=◌ : {A B : Type 0} → Web A → (A → Web B) → Web B
◌>>=◌ m f t = proceed (m t) f

abbrev pub ◌>>◌ : {A B : Type 0} → Web A → Web B → Web B
m >> k = m >>= λ _. k

module _ {A : Type 0} where
  abbrev pub pure : A → Web A
  pure a t = (ok a, t)

  abbrev pub raise : Error → Web A
  raise e t = (err e, t)

  abbrev pub gets : (Turn → A) → Web A
  gets f t = (ok (f t), t)

  abbrev pub or_raise : Option A → Error → Web A
  or_raise none e = raise e
  or_raise (some a) e = pure a

-- A use case, on the tables.
abbrev pub with_world : World → Turn → Turn
with_world w t = record t { site = record t.site { world = w } }

abbrev pub call : {A : Type 0} → Action A → Web A
call m t = ((m t.site.world).0, with_world (m t.site.world).1 t)

-- `await req.json()`: a body that is no JSON raises an error that is no `DomainError`.
abbrev pub json_body : Request → Web Json
json_body req = or_raise req.json fault

-- `validate(schema, data)`, for the schema of a name
abbrev pub validate : {A : Type 0} → Zod → String → (Json → Option A) → Json → Web A
validate zod name schema j = or_raise (schema j) (validation (zod.issues name (some j)))

-- `ctx.userId!`: behind `authMiddleware` there is one; without one, the calls would be given `null`.
abbrev pub current_user : Web ℕ
current_user t = or_raise t.user_id fault t
