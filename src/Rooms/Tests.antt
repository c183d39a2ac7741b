-- ===== src/Rooms/Tests.antt =====
-- Concrete runs of the rooms' use cases.
use Prim.Native.String.{String}
use backend_java_spring_boot.Prelude.{List, ℕ, ◌≤◌, ◌≡◌, refl, none, [], ◌∷◌}
use backend_java_spring_boot.Domain.{
  GivenId, printed, User, RoomDto, to_room_dto, owner, admin, member, Error, err, ok,
}
use backend_java_spring_boot.World.{World}
use backend_java_spring_boot.Store.Rooms.{create_dm, insert_dm_members}
use backend_java_spring_boot.Rooms.Membership.{joined, add_member, remove_member}
use backend_java_spring_boot.Rooms.Creation.{
  create_direct_room, create_group_room, direct_room_or_new, direct_room, group_room,
}
use backend_java_spring_boot.Rooms.Shared.{direct_room_shared}
use backend_java_spring_boot.Rooms.Policy.{remove_member-Decides}
use backend_java_spring_boot.Rooms.Orderly.{owners_of}
use backend_java_spring_boot.Rooms.Reach.{
  Reached, start, step_direct, step_group, step_add, step_elsewhere, rooms_stay_orderly,
  direct_room_stays_closed,
}

abbrev user : ℕ → String → User
user id email = record {
  id = id;
  email = email;
  password_hash = "";
  display_name = email;
  avatar_url = none;
  email_verified_at = none;
  created_at = 1;
  updated_at = 1;
}

abbrev empty_site : World
empty_site = record {
  users = user 1 "ada" ∷ user 2 "bob" ∷ user 3 "cyd" ∷ [];
  refresh_tokens = [];
  email_tokens = [];
  rooms = [];
  room_members = [];
  messages = [];
  published = [];
  mails = [];
}

-- The group 7 of the owner 1 and the member 2.
abbrev team : World
team = record empty_site {
  rooms = group_room 5 7 1 "team" ∷ [];
  room_members = joined 7 2 member 5 ∷ joined 7 1 owner 5 ∷ [];
}

abbrev show : ℕ → String
show _ = "id"

abbrev team_ids : List GivenId
team_ids = printed 2 ∷ printed 1 ∷ printed 2 ∷ []

abbrev opened : World
opened = (create_group_room show 5 7 1 "team" team_ids empty_site).1

opened-Reached : Reached show opened
opened-Reached = step_group (start empty_site refl refl) 5 7 1 "team" team_ids

rooms_stay_orderly_example : owners_of 7 (add_member 9 1 7 3 admin opened).1.room_members ≤ 1
rooms_stay_orderly_example =
    (rooms_stay_orderly show (add_member 9 1 7 3 admin opened).1 7 3
      (step_add opened-Reached 9 1 7 3 admin refl)).2

-- The direct room 8 of the users 1 and 2, after the user 4 has registered
abbrev paired : World
paired = (create_direct_room 6 8 1 (printed 2) empty_site).1

abbrev joined_by_dan : World
joined_by_dan = record paired { users = user 4 "dan" ∷ paired.users }

direct_room_stays_closed_example :
    (e : Error) × (add_member 9 1 8 4 admin joined_by_dan ≡ (err e, joined_by_dan))
unfolding create_direct_room direct_room_or_new create_dm insert_dm_members
direct_room_stays_closed_example =
    direct_room_stays_closed show joined_by_dan 9 1 8 4 admin
      (step_elsewhere (step_direct (start empty_site refl refl) 6 8 1 (printed 2)) joined_by_dan
        refl refl)
      refl

abbrev found_room : RoomDto
found_room = to_room_dto (direct_room 6 8 1 (printed 2))

direct_room_made :
    create_direct_room 6 8 1 (printed 2) empty_site
    ≡ (ok found_room, (create_direct_room 6 8 1 (printed 2) empty_site).1)
unfolding create_direct_room direct_room_or_new create_dm insert_dm_members
direct_room_made = refl

direct_room_shared_example :
    let w = (create_direct_room 6 8 1 (printed 2) empty_site).1 in
    (create_direct_room 9 10 1 (printed 2) w ≡ (ok found_room, w))
    × (create_direct_room 9 10 2 (printed 1) w ≡ (ok found_room, w))
    × (direct_room_or_new 9 10 2 (printed 1) none w ≡ (ok found_room, w))
direct_room_shared_example =
    direct_room_shared 6 8 1 2 empty_site (create_direct_room 6 8 1 (printed 2) empty_site).1
      found_room (user 1 "ada") (user 2 "bob") refl refl direct_room_made 9 10

remove_member-Decides_example :
    remove_member 1 7 (printed 2) team
    ≡ (ok tt, record team { room_members = joined 7 1 owner 5 ∷ [] })
remove_member-Decides_example = remove_member-Decides 1 7 (printed 2) team
