-- ===== src/Rooms/Creation.antt =====
-- create-direct-room.ts and create-group-room.ts. An id and a clock reading are arguments.
use Prim.Native.String
use Prim.Native.String.{String}
use backend_java_spring_boot.Prelude.{
  ℕ, ⊤, Option, none, some, is_none, List, [], ◌∷◌, remove, ◌==◌,
}
use backend_java_spring_boot.Domain.{
  GivenId, Room, dm, group, owner, member, RoomDto, to_room_dto, not_found,
}
use backend_java_spring_boot.World.{Action, pure, gets, raise_if, ◌>>=◌, ◌>>◌}
use backend_java_spring_boot.Store.Users
use backend_java_spring_boot.Store.Rooms
use backend_java_spring_boot.Store.Rooms.{sorted_pair}
use backend_java_spring_boot.Rooms.Membership.{joined}

abbrev pub direct_room : (now id requester : ℕ) → GivenId → Room
direct_room now id requester target = record {
  id = id;
  kind = dm;
  name = none;
  created_by = some requester;
  dm_key = some (sorted_pair requester target.text);
  last_message_at = none;
  created_at = now;
}

-- `CreateDirectRoom.execute` once it was looked up
unfoldable pub direct_room_or_new : (now id requester : ℕ) → GivenId → Option Room → Action RoomDto
direct_room_or_new now id requester target (some existing) = pure (to_room_dto existing)
direct_room_or_new now id requester target none = do
  created ←
      Rooms.create_dm (direct_room now id requester target) (joined id requester member now)
        (joined id target.id member now)
  pure (to_room_dto created)

-- `CreateDirectRoom.execute`
unfoldable pub create_direct_room : (now id requester : ℕ) → GivenId → Action RoomDto
unfolding direct_room_or_new
create_direct_room now id requester target = do
  known ← gets (Users.find_by_id target.id)
  raise_if (is_none known) (not_found "Target user not found")
  existing ← gets (Rooms.find_dm_between requester target.text)
  direct_room_or_new now id requester target existing

abbrev pub group_room : (now id requester : ℕ) → String → Room
group_room now id requester name = record {
  id = id;
  kind = group;
  name = some name;
  created_by = some requester;
  dm_key = none;
  last_message_at = none;
  created_at = now;
}

-- `[...new Set(ids)]`: the first of each text stays.
abbrev pub distinct : List GivenId → List GivenId
distinct [] = []
distinct (x ∷ xs) = x ∷ remove (λ y. y.text == x.text) (distinct xs)

abbrev pub other_members : ℕ → List GivenId → List GivenId
other_members requester ids = remove (λ id. id.text == requester) (distinct ids)

-- The second loop: every other member joins.
unfoldable pub join_all : (now room : ℕ) → List GivenId → Action ⊤
join_all now room [] = pure tt
join_all now room (id ∷ ids) = do
  Rooms.add_member (joined room id.id member now)
  join_all now room ids

-- `show` gives the text of a number.
module _ (show : ℕ → String) where
  -- The first loop: every other member is a known user.
  unfoldable pub check_users : List GivenId → Action ⊤
  check_users [] = pure tt
  check_users (id ∷ ids) = do
    known ← gets (Users.find_by_id id.id)
    raise_if (is_none known) (not_found (String.◌++◌ "User not found: " (show id.text)))
    check_users ids

  -- `CreateGroupRoom.execute`
  unfoldable pub create_group_room : (now id requester : ℕ) → String → List GivenId → Action RoomDto
  create_group_room now id requester name member_ids = do
    check_users (other_members requester member_ids)
    created ← Rooms.create_group (group_room now id requester name) (joined id requester owner now)
    join_all now id (other_members requester member_ids)
    pure (to_room_dto created)
