-- ===== src/Seed/Tests.antt =====
-- A run of the script on an empty database, and a second one.
use backend_java_spring_boot.Prelude.{◌≡◌, refl, []}
use backend_java_spring_boot.Domain.{fault, err, ok}
use backend_java_spring_boot.World.{World}
use backend_java_spring_boot.Controllers.Samples.{runtime}
use backend_java_spring_boot.Seed.{
  Draws, upsert_user, insert_group, insert_member, insert_dm, seed_users, seed_rooms, seed,
}
use backend_java_spring_boot.Seed.Again.{seed_again_raises}
use backend_java_spring_boot.Store.Users.{create}
use backend_java_spring_boot.Store.Rooms.{insert_dm_members}

abbrev empty : World
empty = record {
  users = [];
  refresh_tokens = [];
  email_tokens = [];
  rooms = [];
  room_members = [];
  messages = [];
  published = [];
  mails = [];
}

abbrev first_draws : Draws
first_draws = record {
  alice = 1;
  bob = 2;
  carol = 3;
  room_id = 10;
  dm_id = 11;
  salt = "salt";
  now = 1000;
  db_now = 1000;
}

abbrev second_draws : Draws
second_draws = record {
  alice = 4;
  bob = 5;
  carol = 6;
  room_id = 12;
  dm_id = 13;
  salt = "salt";
  now = 2000;
  db_now = 2000;
}

first_run : (seed runtime first_draws empty).0 ≡ ok tt
unfolding seed seed_users seed_rooms upsert_user create insert_group insert_member insert_dm
    insert_dm_members
first_run = refl

seed_again_raises_example :
    let w = (seed runtime first_draws empty).1 in
    ((seed runtime second_draws w).0 ≡ err fault)
    × ((seed runtime second_draws w).1.rooms ≡ w.rooms)
    × ((seed runtime second_draws w).1.room_members ≡ w.room_members)
unfolding seed seed_users seed_rooms upsert_user create insert_group insert_member insert_dm
    insert_dm_members
seed_again_raises_example =
    seed_again_raises runtime first_draws second_draws empty first_run refl refl
