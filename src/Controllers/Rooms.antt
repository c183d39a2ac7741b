-- ===== src/Controllers/Rooms.antt =====
-- rooms-controller.ts
use backend_java_spring_boot.Prelude.{is_some, if◌then◌else◌}
use backend_java_spring_boot.Domain.{fault}
use backend_java_spring_boot.Json.{Json, null, bool, num, other_number, str, arr, obj, lookup}
use backend_java_spring_boot.Json.Schemas.{
  create_direct_room_schema, create_group_room_schema, add_member_schema, remove_member_schema,
}
use backend_java_spring_boot.Rooms.Membership as Membership
use backend_java_spring_boot.Rooms.Creation as Creation
use backend_java_spring_boot.Rooms.Queries as Queries
use backend_java_spring_boot.Http.{
  Response, respond, no_body, rooms_body, room_body, room_members_body, member_body,
}
use backend_java_spring_boot.Web.{
  Web, pure, raise, call, json_body, validate, current_user, ◌>>=◌, ◌>>◌,
}
use backend_java_spring_boot.Web.Compose.{RouteHandler}
use backend_java_spring_boot.Controllers.{Outside, Moment, path_id}

module _ (out : Outside) (moment : Moment) where
  unfoldable pub list : RouteHandler
  list req = do
    user ← current_user
    rooms ← call (Queries.list_my_rooms user)
    pure (respond 200 (rooms_body rooms))

  unfoldable pub create_direct : Json → Web Response
  create_direct j = do
    target ← validate out.zod "CreateDirectRoomSchema" (create_direct_room_schema out.zod) j
    user ← current_user
    room ← call (Creation.create_direct_room moment.clocks.now moment.id user target)
    pure (respond 201 (room_body room))

  unfoldable pub create_group : Json → Web Response
  create_group j = do
    body ← validate out.zod "CreateGroupRoomSchema" (create_group_room_schema out.zod) j
    user ← current_user
    room ← call (
        Creation.create_group_room out.show moment.clocks.now moment.id user body.name
          body.member_ids)
    pure (respond 201 (room_body room))

  -- `"targetUserId" in body`, which raises for a value that is no object
  unfoldable pub create_from : Json → Web Response
  unfolding create_direct create_group
  create_from (obj fields) =
      if is_some (lookup "targetUserId" fields)
      then create_direct (obj fields)
      else create_group (obj fields)
  create_from (arr items) = create_group (arr items)
  create_from null = raise fault
  create_from (bool b) = raise fault
  create_from (num n) = raise fault
  create_from other_number = raise fault
  create_from (str s) = raise fault

  unfoldable pub create : RouteHandler
  unfolding create_from
  create req = do j ← json_body req; create_from j

  unfoldable pub get_one : RouteHandler
  get_one req = do
    user ← current_user
    room ← path_id out "rooms" req
    found ← call (Queries.get_room user room)
    pure (respond 200 (room_members_body found))

  unfoldable pub add_member : RouteHandler
  add_member req = do
    j ← json_body req
    body ← validate out.zod "AddMemberSchema" (add_member_schema out.zod) j
    user ← current_user
    room ← path_id out "rooms" req
    member ← call (Membership.add_member moment.clocks.now user room body.user_id body.role)
    pure (respond 201 (member_body member))

  unfoldable pub remove_member : RouteHandler
  remove_member req = do
    j ← json_body req
    target ← validate out.zod "RemoveMemberSchema" (remove_member_schema out.zod) j
    user ← current_user
    room ← path_id out "rooms" req
    call (Membership.remove_member user room target)
    pure (respond 204 no_body)

  unfoldable pub delete : RouteHandler
  delete req = do
    user ← current_user
    room ← path_id out "rooms" req
    call (Membership.delete_room user room)
    pure (respond 204 no_body)
