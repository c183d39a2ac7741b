-- ===== src/Rooms/Authorizer.antt =====
-- room-authorizer.ts
use backend_java_spring_boot.Prelude.{ℕ, Bool, true, false, not}
use backend_java_spring_boot.Domain.{
  Room, RoomMember, RoomRole, owner, admin, member, forbidden, not_found,
}
use backend_java_spring_boot.World.{Action, pure, gets, raise_if, or_raise, ◌>>=◌, ◌>>◌}
use backend_java_spring_boot.Store.Rooms

abbrev pub is_member_role : RoomRole → Bool
is_member_role owner = false
is_member_role admin = false
is_member_role member = true

abbrev pub is_owner_role : RoomRole → Bool
is_owner_role owner = true
is_owner_role admin = false
is_owner_role member = false

abbrev pub is_admin_role : RoomRole → Bool
is_admin_role owner = false
is_admin_role admin = true
is_admin_role member = false

unfoldable pub assert_member : ℕ → ℕ → Action RoomMember
assert_member room user = do
  found ← gets (Rooms.get_member room user)
  or_raise found (forbidden "Not a member of this room")

unfoldable pub assert_admin : ℕ → ℕ → Action RoomMember
unfolding assert_member
assert_admin room user = do
  m ← assert_member room user
  raise_if (is_member_role m.role) (forbidden "Admin or owner required")
  pure m

unfoldable pub assert_owner : ℕ → ℕ → Action RoomMember
unfolding assert_member
assert_owner room user = do
  m ← assert_member room user
  raise_if (not (is_owner_role m.role)) (forbidden "Owner required")
  pure m

unfoldable pub assert_room_exists : ℕ → Action Room
assert_room_exists room = do
  found ← gets (Rooms.find_by_id room)
  or_raise found (not_found "Room not found")
