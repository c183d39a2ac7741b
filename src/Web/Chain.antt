-- ===== src/Web/Chain.antt =====
-- `compose` as a nesting: what the shared counter of compose.ts comes to, where every middleware
-- calls `next` on the counter that it was called with, which is once at most.
use backend_java_spring_boot.Prelude.{
  ℕ, zero, suc, ◌<◌, ◌≡◌, refl, Bool, Option, none, some, List, [], ◌∷◌, All, arith, Bool-cases,
  inl, inr, Option-cases, length,
}
use Prim.Native.String.{String}
use backend_java_spring_boot.Limits.Sliding
use backend_java_spring_boot.Http.{Response}
use backend_java_spring_boot.Web.{Request, Turn, Web, header}
use backend_java_spring_boot.Web.Compose.{
  RouteHandler, Middleware, middleware_at, advance, next, fuel_of, compose,
}
use backend_java_spring_boot.Web.Middlewares.{
  request_id, cors, security_headers, map_errors, authenticate, limit_rate, Limit, bearer,
  identified, limit_key, with_hits,
}

-- Each middleware runs around the ones after it, and the handler inside all of them.
abbrev pub nested : List Middleware → RouteHandler → Request → Web Response
nested [] handler req t = handler req (advance t)
nested (m ∷ ms) handler req t = m req (nested ms handler req) (advance t)

-- A middleware that calls `next` only before the counter moves.
abbrev pub CallsOnce : Middleware → Type 0
CallsOnce m =
    (req : Request) (n n' : Web Response) (t : Turn)
    → ((u : Turn) → u.cursor ≡ t.cursor → n u ≡ n' u)
    → m req n t ≡ m req n' t

abbrev dropped : ℕ → List Middleware → List Middleware
dropped zero ms = ms
dropped (suc i) [] = []
dropped (suc i) (m ∷ ms) = dropped i ms

at_end : (i : ℕ) (ms : List Middleware) → dropped i ms ≡ [] → middleware_at ms i ≡ none
at_end zero [] h = refl
at_end zero (m ∷ ms) h = cc
at_end (suc i) [] h = refl
at_end (suc i) (m ∷ ms) h = at_end i ms h

abbrev tail : List Middleware → List Middleware
tail [] = []
tail (m ∷ ms) = ms

abbrev first : List Middleware → Option Middleware
first [] = none
first (m ∷ ms) = some m

at-first : (i : ℕ) (ms : List Middleware) → middleware_at ms i ≡ first (dropped i ms)
at-first zero [] = refl
at-first zero (m ∷ ms) = refl
at-first (suc i) [] = refl
at-first (suc i) (m ∷ ms) = at-first i ms

dropped-suc : (i : ℕ) (ms : List Middleware) → dropped (suc i) ms ≡ tail (dropped i ms)
dropped-suc zero [] = refl
dropped-suc zero (m ∷ ms) = refl
dropped-suc (suc i) [] = refl
dropped-suc (suc i) (m ∷ ms) = dropped-suc i ms

next-nested :
    (all rest : List Middleware) (fuel : ℕ) (handler : RouteHandler) (req : Request) (t : Turn)
    → All CallsOnce rest
    → dropped t.cursor all ≡ rest
    → length rest < fuel
    → next fuel all handler req t ≡ nested rest handler req t
unfolding next
next-nested all rest zero handler req t once at_rest enough = absurd (omega arith)
next-nested all [] (suc fuel) handler req t once at_rest enough =
    rw (at-first t.cursor all) (rw at_rest refl)
next-nested all (m ∷ ms) (suc fuel) handler req t (o, os) at_rest enough =
    rw (at-first t.cursor all) (
      rw at_rest (
        o req _ _ (advance t) (λ u same.
          next-nested all ms fuel handler req u os
            (rw same (rw (dropped-suc t.cursor all) (rw at_rest refl))) (omega arith))))

fuel-length : (ms : List Middleware) → fuel_of ms ≡ suc (length ms)
fuel-length [] = refl
fuel-length (m ∷ ms) = omega (arith, fuel-length ms)

-- Where every middleware calls `next` on the counter that it was called with, `compose` ends
-- without running out of middlewares to count: from the counter 0 it runs each one around those
-- after it, with the handler inside all of them.
pub compose-nested :
    (ms : List Middleware) (handler : RouteHandler) (req : Request) (t : Turn)
    → All CallsOnce ms
    → t.cursor ≡ 0
    → compose ms handler req t ≡ nested ms handler req t
unfolding compose
compose-nested ms handler req t once start =
    next-nested ms ms (fuel_of ms) handler req t once (rw start refl)
      (omega (arith, fuel-length ms))

pub request_id-CallsOnce : CallsOnce request_id
unfolding request_id
request_id-CallsOnce req n n' t h = rw (h (identified req t) refl) refl

pub cors-CallsOnce : (origins : List String) → CallsOnce (cors origins)
unfolding cors
cors-CallsOnce origins req n n' t h = rw (h t refl) refl

pub security_headers-CallsOnce : (production : Bool) → CallsOnce (security_headers production)
unfolding security_headers
security_headers-CallsOnce production req n n' t h = rw (h t refl) refl

pub map_errors-CallsOnce : CallsOnce map_errors
unfolding map_errors
map_errors-CallsOnce req n n' t h = rw (h t refl) refl

pub authenticate-CallsOnce : (verify : String → Option ℕ) → CallsOnce (authenticate verify)
unfolding authenticate
authenticate-CallsOnce verify req n n' t h =
    elim (Option-cases (bearer (header "authorization" req))) [
      | inl b ↦ rw b refl
      | inr (token, b) ↦ rw b (elim (Option-cases (verify token)) [
        | inl v ↦ rw v refl
        | inr (sub, v) ↦ rw v (h _ refl)
      ])
    ]

pub limit_rate-CallsOnce :
    (trim : String → String) (show : ℕ → String) (now later : ℕ) (limit : Limit)
    → CallsOnce (limit_rate trim show now later limit)
unfolding limit_rate
limit_rate-CallsOnce trim show now later limit req n n' t h =
    let answer =
      Sliding.consume now (limit_key trim show limit req t) limit.max limit.window_sec
        t.site.hits in
    elim (Bool-cases answer.0.allowed) [
      | inl allowed ↦ rw allowed (h (with_hits answer.1 t) refl)
      | inr refused ↦ rw refused refl
    ]
