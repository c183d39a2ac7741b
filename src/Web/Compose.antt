-- ===== src/Web/Compose.antt =====
-- compose.ts. The closure `next` reads and counts up `i`, which all calls of `next` share; the
-- recursion of `next` is on fuel.
use Prim.Native.String.{String}
use backend_java_spring_boot.Prelude.{ℕ, zero, suc, Option, none, some, List, [], ◌∷◌}
use backend_java_spring_boot.Domain.{fault, err}
use backend_java_spring_boot.Http.{Response}
use backend_java_spring_boot.Web.{Request, Turn, Site, Web}

abbrev pub RouteHandler : Type 0
RouteHandler = Request → Web Response

abbrev pub Middleware : Type 0
Middleware = Request → Web Response → Web Response

-- `middlewares[i]`
abbrev pub middleware_at : List Middleware → ℕ → Option Middleware
middleware_at [] i = none
middleware_at (m ∷ ms) zero = some m
middleware_at (m ∷ ms) (suc i) = middleware_at ms i

-- `i++`
abbrev pub advance : Turn → Turn
advance t = record t { cursor = suc t.cursor }

-- `mw ? mw(req, ctx, next) : handler(req, ctx)`
abbrev pub step : Option Middleware → RouteHandler → Request → Web Response → Web Response
step none handler req next = handler req
step (some mw) handler req next = mw req next

-- `next`; without fuel it raises.
unfoldable pub next : ℕ → List Middleware → RouteHandler → Request → Web Response
next zero ms handler req t = (err fault, t)
next (suc fuel) ms handler req t =
    step (middleware_at ms t.cursor) handler req (next fuel ms handler req) (advance t)

-- The context of a new request, with the random id that it draws.
abbrev pub opened : String → Site → Turn
opened request_id site = record { site = site; request_id = request_id; user_id = none; cursor = 0 }

abbrev pub fuel_of : List Middleware → ℕ
fuel_of [] = 1
fuel_of (m ∷ ms) = suc (fuel_of ms)

-- `compose(...middlewares)(handler)`
unfoldable pub compose : List Middleware → RouteHandler → Request → Web Response
unfolding next
compose ms handler req t = next (fuel_of ms) ms handler req t
