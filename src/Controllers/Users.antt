-- ===== src/Controllers/Users.antt =====
-- users-controller.ts
use Prim.Native.String.{String}
use backend_java_spring_boot.Prelude.{ℕ, Option, none, some, List, [], ◌∷◌, map}
use backend_java_spring_boot.Domain.{fault}
use backend_java_spring_boot.Json.Schemas.{update_profile_schema}
use backend_java_spring_boot.Auth.Credentials.{get_user}
use backend_java_spring_boot.Presence.{list_online}
use backend_java_spring_boot.Profiles.{list_all, update_profile, list_users}
use backend_java_spring_boot.Http.{respond, user_body, users_body}
use backend_java_spring_boot.Web.{
  Turn, pure, gets, or_raise, call, json_body, validate, current_user, ◌>>=◌,
}
use backend_java_spring_boot.Web.Compose.{RouteHandler}
use backend_java_spring_boot.Controllers.{Outside, Moment, parse_uuid}

-- `pathname.split("/").pop()`
abbrev pub last_part : List String → Option String
last_part [] = none
last_part (p ∷ []) = some p
last_part (p ∷ q ∷ rest) = last_part (q ∷ rest)

module _ (out : Outside) (moment : Moment) where
  unfoldable pub get_me : RouteHandler
  get_me req = do
    user ← current_user
    public ← call (get_user user)
    pure (respond 200 (user_body public))

  unfoldable pub update_me : RouteHandler
  update_me req = do
    j ← json_body req
    body ← validate out.zod "UpdateProfileSchema" (update_profile_schema out.zod) j
    user ← current_user
    public ← call (update_profile moment.clocks.db_now user body)
    pure (respond 200 (user_body public))

  unfoldable pub get_by_id : RouteHandler
  get_by_id req = do
    id ← or_raise (parse_uuid out (last_part req.path)) fault
    public ← call (get_user id)
    pure (respond 200 (user_body public))

  -- What `listOnline` answers for the users that `listAll` finds
  abbrev pub online_now : (user : ℕ) → Turn → List ℕ
  online_now user t =
      list_online (map (λ u. u.id) (list_all out.name_before user t.site.world)) t.site.presence

  unfoldable pub list : RouteHandler
  list req = do
    user ← current_user
    online ← gets (online_now user)
    users ← call (list_users out.name_before user online)
    pure (respond 200 (users_body users))
