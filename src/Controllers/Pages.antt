-- ===== src/Controllers/Pages.antt =====
-- The size of a page of `GET /rooms/:id/messages`, and which token a refresh takes.
use Prim.Native.Char.{code}
use Prim.Native.String.{String, ◌++◌}
use text.Mathlib.Text.{◌==◌ as str_eq}
use text.Mathlib.TextLemmas.{cons-append, nil-append}
use text.Mathlib.TextPositions.{starts_with-append}
use backend_java_spring_boot.Prelude.{
  ℕ, ⊤, ◌∷◌, map, ◌≤◌, ◌≡◌, refl, ◌∙◌, ap, Bool, true, false, not, ◌&&◌, Option, none, some,
  Option-cases, inl, inr, List, [], length, ◌==◌, arith,
}
use backend_java_spring_boot.Domain.{MessageDto, to_message_dto, Result, ok, err, Error, fault}
use backend_java_spring_boot.World.{World}
use backend_java_spring_boot.Store.Rooms
use backend_java_spring_boot.Store.Messages.{list_by_room}
use backend_java_spring_boot.Messages.Pages.{list_by_room_page}
use backend_java_spring_boot.Json.{Zod, null}
use backend_java_spring_boot.Json.Schemas.{PageQuery, limit_of, list_messages_query_schema}
use backend_java_spring_boot.Http.{Response, messages_body}
use backend_java_spring_boot.Web.Middlewares.{slice, truthy}
use backend_java_spring_boot.Web.{
  Request, Turn, Web, header, param, proceed, or_raise, raise, call, validate, current_user,
}
use backend_java_spring_boot.Controllers.{Outside, Settings, Moment, path_id}
use backend_java_spring_boot.Controllers.Cookies.{get_refresh_from_cookie, until_semicolon}
use backend_java_spring_boot.Messages.UseCases.{list_messages}
use backend_java_spring_boot.Controllers.Messages
use backend_java_spring_boot.Controllers.Auth.{presented}

-- A text without `;`
abbrev pub semicolon_free : String → Bool
semicolon_free String.[] = true
semicolon_free (String.◌∷◌ c s) = not (code c == 59) && semicolon_free s

until_semicolon-all : (s : String) → semicolon_free s ≡ true → until_semicolon s ≡ s
until_semicolon-all String.[] h = refl
until_semicolon-all (String.◌∷◌ c s) h = ground (arith, until_semicolon-all s)

limit-bounds :
    (zod : Zod) (raw : Option String) (n : ℕ) → limit_of zod raw ≡ some n → (1 ≤ n) × (n ≤ 100)
limit-bounds zod none n h = ground arith
limit-bounds zod (some s) n h = ground arith

sliced : (token : String) → slice 3 ("rt=" ++ token) ≡ token
sliced token =
    ap (slice 3) (cons-append "r" "t=" token)
    ∙ ap (slice 2) (cons-append "t" "=" token)
    ∙ ap (slice 1) (cons-append "=" "" token)
    ∙ nil-append token

abbrev limit_in : Option PageQuery → ℕ
limit_in none = 0
limit_in (some q) = q.limit

-- What holds of the value of a call that ends.
abbrev Holds : {A : Type 0} → (A → Type 0) → Result A → Type 0
Holds P (ok a) = P a
Holds P (err e) = ⊤

proceed-Holds :
    {A B : Type 0} (P : A → Type 0) (Q : B → Type 0) (r : Result A × Turn) (k : A → Web B)
    → Holds P r.0
    → ((a : A) (t : Turn) → P a → Holds Q (k a t).0)
    → Holds Q (proceed r k).0
proceed-Holds P Q (ok a, t) k p h = h a t p
proceed-Holds P Q (err e, t) k p h = tt

any-Holds : {A : Type 0} (r : Result A) → Holds (λ _. ⊤) r
any-Holds (ok a) = tt
any-Holds (err e) = tt

raised-Holds :
    {A : Type 0} (P : A → Type 0) (a : Option A) (e : Error) (t : Turn)
    → ((x : A) → a ≡ some x → P x)
    → Holds P (or_raise a e t).0
raised-Holds P none e t h = tt
raised-Holds P (some x) e t h = h x refl

length-map : {A B : Type 0} (f : A → B) (xs : List A) → length (map f xs) ≡ length xs
length-map f [] = refl
length-map f (x ∷ xs) = omega (arith, length-map f xs)

list_messages-length :
    (room user : ℕ) (before : Option ℕ) (limit : ℕ) (w : World)
    → Holds (λ ms. length ms ≤ limit) (list_messages room user before limit w).0
unfolding list_messages
list_messages-length room user before limit w = elim (Option-cases (Rooms.get_member room user w)) [
  | inl n ↦ rw n tt
  | inr (m, f) ↦ rw f (
      let page = list_by_room room before limit w in
      let short = (list_by_room_page room before limit w).2 in
      omega (arith, length-map to_message_dto page, short))
]

module _ (out : Outside) (set : Settings) (moment : Moment) where
  -- Where a request carries the refresh cookie alone, as the browser sends it for the one that was
  -- set, with a token that has no semicolon and is not blank, the refresh and the logout take the
  -- token of the cookie, trimmed, whatever token the body carries.
  pub cookie_presented :
      (req : Request) (token : String) (body : Option String)
      → header "cookie" req ≡ some ("rt=" ++ token)
      → semicolon_free token ≡ true
      → str_eq token "" ≡ false
      → str_eq (out.zod.trim token) "" ≡ false
      → presented out set moment req body ≡ some (out.zod.trim token)
  unfolding get_refresh_from_cookie
  cookie_presented req token body sent free some_token kept = rw sent (
      rw (starts_with-append "rt=" token)
        (rw (sliced token) (rw (until_semicolon-all token free) (rw some_token (rw kept refl)))))

  list_before-length :
      (room user : ℕ) (before : Option (Option ℕ)) (limit : ℕ) (t : Turn)
      → Holds (λ ms. length ms ≤ limit) (Messages.list_before out moment room user before limit t).0
  list_before-length room user none limit t =
      proceed-Holds (λ ms. ⊤) _ (call (list_messages room user none limit) t) (λ _. raise fault)
        (any-Holds _) (λ a u h. tt)
  list_before-length room user (some before) limit t =
      list_messages-length room user before limit t.site.world

  query-limit :
      (before limit : Option String) (q : PageQuery)
      → list_messages_query_schema out.zod before limit ≡ some q
      → q.limit ≤ 100
  unfolding list_messages_query_schema
  query-limit before limit q h = elim (Option-cases (limit_of out.zod limit)) [
    | inl n ↦ absurd (cc (rw n at h))
    | inr (n, f) ↦
        let same : n ≡ q.limit = ap limit_in (rw f at h) in
        omega (arith, same, limit-bounds out.zod limit n f)
  ]

  -- A page of at most 100 messages
  abbrev pub IsPage : Response → Type 0
  IsPage res = (ms : List MessageDto) × (res.body ≡ messages_body ms) × (length ms ≤ 100)

  pages-hold : (req : Request) (t : Turn) → Holds IsPage (Messages.list_by_room out moment req t).0
  unfolding Messages.list_by_room
  pages-hold req t =
      proceed-Holds (λ (q : PageQuery). q.limit ≤ 100) IsPage
        (validate out.zod "ListMessagesQuerySchema"
          (λ _. list_messages_query_schema out.zod (param "before" req) (param "limit" req)) null t)
        _ (raised-Holds _ _ _ t (query-limit (param "before" req) (param "limit" req)))
        (λ q t1 small.
          proceed-Holds (λ _. ⊤) IsPage (path_id out "rooms" req t1) _ (any-Holds _)
            (λ room t2 _.
              proceed-Holds (λ _. ⊤) IsPage (current_user t2) _ (any-Holds _)
                (λ user t3 _.
                  proceed-Holds (λ ms. length ms ≤ q.limit) IsPage
                    (Messages.list_before out moment room user
                      (Messages.cursor_of out moment (truthy q.before)) q.limit t3)
                    _
                    (list_before-length room user (Messages.cursor_of out moment (truthy q.before))
                      q.limit t3)
                    (λ ms t4 short. (ms, refl, omega (arith, short, small))))))

  -- Whatever limit a request asks for, a response of the list of a room's messages holds at most
  -- 100 messages.
  pub pages-bounded :
      (req : Request) (t : Turn) (res : Response)
      → (Messages.list_by_room out moment req t).0 ≡ ok res
      → IsPage res
  pages-bounded req t res h = rw h at (pages-hold req t)
