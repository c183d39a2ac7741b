-- ===== src/Rooms/Queries.antt =====
-- get-room.ts and list-my-rooms.ts, with the two queries of pg-room-repository.ts that they make.
-- Rows that an ORDER BY does not tell apart come in the order of the table.
use backend_java_spring_boot.Prelude.{
  ℕ, ◌≡◌, refl, ◌∙◌, inl, inr, Bool, true, false, Option, none, some, List, [], ◌∷◌, any, count,
  filter, map, sort_by, leb, ltb, is_some, ◌==◌, arith, if◌then◌else◌, Option-cases, count-sort_by,
  find?-none→any, find?-some→any,
}
use backend_java_spring_boot.Domain.{
  Room, RoomMember, RoomDto, RoomWithMembersDto, to_room_dto, to_room_member_dto, ok, forbidden,
}
use backend_java_spring_boot.World.{World, Action, Decides, pure, gets, ◌>>=◌, ◌>>◌}
use backend_java_spring_boot.Store.Rooms
use backend_java_spring_boot.Store.Rooms.{at}
use backend_java_spring_boot.Rooms.Authorizer.{assert_member, assert_room_exists}

-- `ORDER BY joined_at ASC`
abbrev pub joined_before : RoomMember → RoomMember → Bool
joined_before a b = leb a.joined_at b.joined_at

unfoldable pub list_members : ℕ → World → List RoomMember
list_members room w = sort_by joined_before (filter (λ m. m.room_id == room) w.room_members)

-- `ORDER BY last_message_at DESC NULLS LAST, created_at DESC`
abbrev pub later_activity : Option ℕ → Option ℕ → Bool → Bool
later_activity none none tie = tie
later_activity none (some b) tie = false
later_activity (some a) none tie = true
later_activity (some a) (some b) tie = if a == b then tie else ltb b a

abbrev pub listed_before : Room → Room → Bool
listed_before a b =
    later_activity a.last_message_at b.last_message_at (leb b.created_at a.created_at)

-- The join: a membership is unique, so that a room comes once.
unfoldable pub list_for_user : ℕ → World → List Room
list_for_user user w =
    sort_by listed_before (filter (λ r. any (at r.id user) w.room_members) w.rooms)

-- `GetRoom.execute`
unfoldable pub get_room : (requester room : ℕ) → Action RoomWithMembersDto
unfolding assert_member assert_room_exists
get_room requester room = do
  assert_member room requester
  r ← assert_room_exists room
  members ← gets (list_members room)
  pure (record { room = to_room_dto r; members = map to_room_member_dto members })

-- `ListMyRooms.execute`
unfoldable pub list_my_rooms : ℕ → Action (List RoomDto)
list_my_rooms user = do rooms ← gets (list_for_user user); pure (map to_room_dto rooms)

-- Where the room exists, a member gets it with its members, and anybody else is refused; nothing
-- changes.
pub get_room-Decides :
    (requester room : ℕ) (r : Room) (w : World)
    → Rooms.find_by_id room w ≡ some r
    → Decides
        (is_some (Rooms.get_member room requester w))
        w
        (
          ok (record {
            room = to_room_dto r;
            members = map to_room_member_dto (list_members room w);
          }),
          w,
        )
        (get_room requester room w)
unfolding get_room
get_room-Decides requester room r w f = elim (Option-cases (Rooms.get_member room requester w)) [
  | inl m ↦ rw m (forbidden "Not a member of this room", refl)
  | inr (x, m) ↦ rw m (rw f refl)
]

member-same :
    (user a b : ℕ) (ms : List RoomMember)
    → (a == b) ≡ true
    → any (at a user) ms ≡ any (at b user) ms
member-same user a b [] h = refl
member-same user a b (x ∷ xs) h = ground (arith, member-same user a b xs h)

listed :
    (user id : ℕ) (ms : List RoomMember) (rooms : List Room)
    → count (λ r. r.id == id) (filter (λ r. any (at r.id user) ms) rooms)
      ≡ (if any (at id user) ms then count (λ r. r.id == id) rooms else 0)
listed user id ms [] = ground arith
listed user id ms (x ∷ xs) = ground (arith, listed user id ms xs, member-same user x.id id ms)

-- The list of a user's rooms holds the rooms that the user is in, and no others.
pub list_for_user-members :
    (user id : ℕ) (w : World)
    → count (λ r. r.id == id) (list_for_user user w)
      ≡ (if is_some (Rooms.get_member id user w) then count (λ r. r.id == id) w.rooms else 0)
unfolding list_for_user
list_for_user-members user id w = elim (Option-cases (Rooms.get_member id user w)) [
  | inl m ↦ rw m (
      count-sort_by (λ r. r.id == id) listed_before _
      ∙ listed user id w.room_members w.rooms
      ∙ rw (find?-none→any (at id user) w.room_members m) refl)
  | inr (x, m) ↦ rw m (
      count-sort_by (λ r. r.id == id) listed_before _
      ∙ listed user id w.room_members w.rooms
      ∙ rw (find?-some→any (at id user) w.room_members x m) refl)
]
