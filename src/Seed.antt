-- ===== src/Seed.antt =====
-- scripts/seed-dev.ts, after `migrate()`: the statements that fill a development database, each
-- with the constraints of migrations/. `RETURNING id` is not read: what the script remembers are
-- the ids that it drew.
use Prim.Native.String.{String}
use text.Mathlib.Text.{◌==◌ as str_eq}
use backend_java_spring_boot.Prelude.{
  ℕ, ⊤, Bool, ◌&&◌, ◌||◌, not, Option, none, some, List, [], ◌∷◌, any, update, if◌then◌else◌,
}
use backend_java_spring_boot.Domain.{
  User, Room, dm, group, RoomMember, RoomRole, owner, member, fault, err, ok,
}
use backend_java_spring_boot.World.{World, Action, pure, ◌>>◌}
use backend_java_spring_boot.Auth.Runtime.{Runtime}
use backend_java_spring_boot.Store.Users.{UserCreate, create}
use backend_java_spring_boot.Store.Rooms.{
  at, room_exists, creator_ok, member_refs, key_eq, sorted_pair, insert_room, insert_dm_members,
}
pub mod Upserts
pub mod Again
mod Tests

-- What a run draws: the ids of `uuidv7()`, the salt of the password, and the clocks.
pub record Draws : Type 0 where
  pub alice : ℕ
  pub bob : ℕ
  pub carol : ℕ
  pub room_id : ℕ
  pub dm_id : ℕ
  pub salt : String
  pub now : ℕ
  pub db_now : ℕ

abbrev pub renamed : String → User → User
renamed name u = record u { display_name = name }

-- INSERT INTO users … ON CONFLICT (email) DO UPDATE SET display_name
unfoldable pub upsert_user : ℕ → UserCreate → Action ⊤
unfolding create
upsert_user db_now u w =
    if any (λ v. str_eq v.email u.email) w.users
    then (
      ok tt,
      record w { users = update (λ v. str_eq v.email u.email) (renamed u.display_name) w.users },
    )
    else (create db_now u >> pure tt) w

-- INSERT INTO rooms … ON CONFLICT DO NOTHING; a row that is not inserted has no foreign key.
unfoldable pub insert_group : Room → Action ⊤
insert_group room w =
    if room_exists room.id w || any (λ r. key_eq r.dm_key room.dm_key) w.rooms
    then (ok tt, w)
    else if creator_ok room.created_by w
    then (ok tt, insert_room room w)
    else (err fault, w)

-- INSERT INTO room_members … ON CONFLICT DO NOTHING
unfoldable pub insert_member : RoomMember → Action ⊤
insert_member m w =
    if any (at m.room_id m.user_id) w.room_members
    then (ok tt, w)
    else if member_refs m w
    then (ok tt, record w { room_members = m ∷ w.room_members })
    else (err fault, w)

-- INSERT INTO rooms … ON CONFLICT (dm_key) DO NOTHING
unfoldable pub insert_dm : Room → Action ⊤
insert_dm room w =
    if any (λ r. key_eq r.dm_key room.dm_key) w.rooms
    then (ok tt, w)
    else if not (room_exists room.id w) && creator_ok room.created_by w
    then (ok tt, insert_room room w)
    else (err fault, w)

module _ (rt : Runtime) (d : Draws) where
  abbrev pub seeded : (id : ℕ) (email name : String) → UserCreate
  seeded id email name = record {
    id = id;
    email = email;
    password_hash = rt.hash_password d.salt "password123";
    display_name = name;
    avatar_url = none;
    email_verified_at = some d.now;
  }

  abbrev pub membership : (room user : ℕ) → RoomRole → RoomMember
  membership room user role = record {
    room_id = room;
    user_id = user;
    role = role;
    joined_at = d.db_now;
    last_read_message_id = none;
    muted_until = none;
  }

  abbrev pub dev_team : Room
  dev_team = record {
    id = d.room_id;
    kind = group;
    name = some "Dev Team";
    created_by = some d.alice;
    dm_key = none;
    last_message_at = none;
    created_at = d.db_now;
  }

  abbrev pub alice_and_bob : Room
  alice_and_bob = record {
    id = d.dm_id;
    kind = dm;
    name = none;
    created_by = some d.alice;
    dm_key = some (sorted_pair d.alice d.bob);
    last_message_at = none;
    created_at = d.db_now;
  }

  unfoldable pub seed_users : Action ⊤
  unfolding upsert_user
  seed_users = do
    upsert_user d.db_now (seeded d.alice "alice@dev.local" "Alice Dev")
    upsert_user d.db_now (seeded d.bob "bob@dev.local" "Bob Dev")
    upsert_user d.db_now (seeded d.carol "carol@dev.local" "Carol Dev")

  unfoldable pub seed_rooms : Action ⊤
  unfolding insert_group insert_member insert_dm insert_dm_members
  seed_rooms = do
    insert_group dev_team
    insert_member (membership d.room_id d.alice owner)
    insert_member (membership d.room_id d.bob member)
    insert_member (membership d.room_id d.carol member)
    insert_dm alice_and_bob
    insert_dm_members (membership d.dm_id d.alice member) (membership d.dm_id d.bob member)

  unfoldable pub seed : Action ⊤
  unfolding seed_users seed_rooms
  seed = seed_users >> seed_rooms
