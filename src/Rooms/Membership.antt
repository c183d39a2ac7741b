-- ===== src/Rooms/Membership.antt =====
-- add-member.ts, remove-member.ts and delete-room.ts
use backend_java_spring_boot.Prelude.{ℕ, ⊤, ◌&&◌, none, is_some, is_none, ◌==◌, if◌then◌else◌}
use backend_java_spring_boot.Domain.{
  GivenId, RoomKind, dm, group, RoomMember, RoomRole, RoomMemberDto, to_room_member_dto, forbidden,
  not_found, conflict,
}
use backend_java_spring_boot.World.{Action, pure, gets, raise_if, or_raise, ◌>>=◌, ◌>>◌}
use backend_java_spring_boot.Store.Users
use backend_java_spring_boot.Store.Rooms
use backend_java_spring_boot.Rooms.Authorizer.{
  is_member_role, is_owner_role, is_admin_role, assert_member, assert_admin, assert_owner,
  assert_room_exists,
}

-- A member's row as the use cases insert it.
abbrev pub joined : ℕ → ℕ → RoomRole → ℕ → RoomMember
joined room user role now = record {
  room_id = room;
  user_id = user;
  role = role;
  joined_at = now;
  last_read_message_id = none;
  muted_until = none;
}

-- `AddMember.execute`, at the time `now`
unfoldable pub add_member : (now requester room user : ℕ) → RoomRole → Action RoomMemberDto
unfolding assert_room_exists assert_admin
add_member now requester room user role = do
  assert_room_exists room
  assert_admin room requester
  known ← gets (Users.find_by_id user)
  raise_if (is_none known) (not_found "User not found")
  existing ← gets (Rooms.get_member room user)
  raise_if (is_some existing) (conflict "User is already a member")
  m ← Rooms.add_member (joined room user role now)
  pure (to_room_member_dto m)

-- The checks of `RemoveMember.execute` on the two roles, and the removal.
unfoldable pub remove_by_roles : (room target : ℕ) → RoomRole → RoomRole → Action ⊤
remove_by_roles room target requester_role target_role = do
  raise_if (is_member_role requester_role) (forbidden "Admin or owner required")
  raise_if (is_owner_role target_role) (forbidden "Cannot remove the owner")
  raise_if (is_admin_role requester_role && is_admin_role target_role)
      (forbidden "Admin cannot remove another admin")
  Rooms.remove_member room target

-- The end of `RemoveMember.execute`, for a requester who removes somebody else.
unfoldable pub remove_other : (requester room target : ℕ) → RoomRole → Action ⊤
remove_other requester room target target_role = do
  found ← gets (Rooms.get_member room requester)
  m ← or_raise found (forbidden "Not a member of this room")
  remove_by_roles room target m.role target_role

-- `RemoveMember.execute`: `requesterId === targetUserId` compares the two texts.
unfoldable pub remove_member : (requester room : ℕ) → GivenId → Action ⊤
unfolding assert_room_exists remove_other
remove_member requester room target = do
  assert_room_exists room
  found ← gets (Rooms.get_member room target.id)
  m ← or_raise found (not_found "Member not found")
  if requester == target.text
      then Rooms.remove_member room target.id
      else remove_other requester room target.id m.role

-- The check of `DeleteRoom.execute`: the owner of a group, any member of a direct room.
unfoldable pub assert_may_delete : RoomKind → ℕ → ℕ → Action RoomMember
unfolding assert_member assert_owner
assert_may_delete group room requester = assert_owner room requester
assert_may_delete dm room requester = assert_member room requester

-- `DeleteRoom.execute`
unfoldable pub delete_room : (requester room : ℕ) → Action ⊤
unfolding assert_room_exists assert_may_delete
delete_room requester room = do
  r ← assert_room_exists room
  assert_may_delete r.kind room requester
  Rooms.delete_room room
