-- ===== src/Store/Rooms.antt =====
-- PgRoomRepository, and the constraints of migrations/0002_rooms.sql and 0003_messages.sql on
-- its two tables.
use backend_java_spring_boot.Prelude.{
  ℕ, ⊤, Bool, true, false, ◌&&◌, not, Option, none, some, List, ◌∷◌, any, find?, remove, update,
  ◌==◌, leb, if◌then◌else◌,
}
use backend_java_spring_boot.Domain.{Room, RoomMember, RoomRole, Message, fault, err, ok}
use backend_java_spring_boot.World.{World, Action, row_or_fault, ◌>>◌}
use backend_java_spring_boot.Store.Users.{user_exists}

abbrev pub room_exists : ℕ → World → Bool
room_exists id w = any (λ r. r.id == id) w.rooms

-- `[userA, userB].sort()`
abbrev pub sorted_pair : ℕ → ℕ → ℕ × ℕ
sorted_pair a b = if leb a b then (a, b) else (b, a)

-- Equality of SQL: null equals nothing.
abbrev pub key_eq : Option (ℕ × ℕ) → Option (ℕ × ℕ) → Bool
key_eq none _ = false
key_eq (some k) none = false
key_eq (some (a, b)) (some (c, d)) = (a == c) && (b == d)

-- A nullable foreign key to the users.
abbrev pub creator_ok : Option ℕ → World → Bool
creator_ok none w = true
creator_ok (some id) w = user_exists id w

abbrev pub at : ℕ → ℕ → RoomMember → Bool
at room user m = (m.room_id == room) && (m.user_id == user)

abbrev pub get_member : ℕ → ℕ → World → Option RoomMember
get_member room user w = find? (at room user) w.room_members

abbrev pub find_by_id : ℕ → World → Option Room
find_by_id id w = find? (λ r. r.id == id) w.rooms

abbrev pub find_by_key : Option (ℕ × ℕ) → World → Option Room
find_by_key key w = find? (λ r. key_eq r.dm_key key) w.rooms

abbrev pub find_dm_between : ℕ → ℕ → World → Option Room
find_dm_between a b w = find_by_key (some (sorted_pair a b)) w

-- The foreign keys of a member's row; `lastReadMessageId` is null in every row that is inserted.
abbrev pub member_refs : RoomMember → World → Bool
member_refs m w = room_exists m.room_id w && user_exists m.user_id w

-- INSERT, under the primary key.
unfoldable pub add_member : RoomMember → Action RoomMember
add_member m w =
    if not (any (at m.room_id m.user_id) w.room_members) && member_refs m w
    then (ok m, record w { room_members = m ∷ w.room_members })
    else (err fault, w)

-- A row of INSERT … ON CONFLICT DO NOTHING.
abbrev pub add_if_new : RoomMember → List RoomMember → List RoomMember
add_if_new m ms = if any (at m.room_id m.user_id) ms then ms else m ∷ ms

unfoldable pub insert_dm_members : RoomMember → RoomMember → Action ⊤
insert_dm_members a b w =
    if member_refs a w && member_refs b w
    then (ok tt, record w { room_members = add_if_new b (add_if_new a w.room_members) })
    else (err fault, w)

abbrev pub insert_room : Room → World → World
insert_room room w = record w { rooms = room ∷ w.rooms }

-- A new id and a known creator.
abbrev pub room_allowed : Room → World → Bool
room_allowed room w = not (room_exists room.id w) && creator_ok room.created_by w

unfoldable pub create_dm : Room → RoomMember → RoomMember → Action Room
create_dm room a b w =
    if any (λ r. key_eq r.dm_key room.dm_key) w.rooms
    then row_or_fault (find_by_key room.dm_key w) w
    else if room_allowed room w
    then (insert_dm_members a b >> (λ v. (ok room, v))) (insert_room room w)
    else (err fault, w)

unfoldable pub create_group : Room → RoomMember → Action Room
create_group room owner w =
    if room_allowed room w && not (any (λ r. key_eq r.dm_key room.dm_key) w.rooms)
    then (add_member owner >> (λ v. (ok room, v))) (insert_room room w)
    else (err fault, w)

unfoldable pub remove_member : ℕ → ℕ → Action ⊤
remove_member room user w =
    (ok tt, record w { room_members = remove (at room user) w.room_members })

abbrev pub read_at : ℕ → RoomMember → RoomMember
read_at message m = record m { last_read_message_id = some message }

-- The foreign key is checked only where the statement meets a row.
unfoldable pub set_last_read_message : ℕ → ℕ → ℕ → Action ⊤
set_last_read_message room user message w =
    if any (at room user) w.room_members && not (any (λ m. m.id == message) w.messages)
    then (err fault, w)
    else (ok tt, record w { room_members = update (at room user) (read_at message) w.room_members })

abbrev pub bumped : ℕ → Room → Room
bumped time r = record r { last_message_at = some time }

unfoldable pub bump_last_message_at : ℕ → ℕ → Action ⊤
bump_last_message_at room time w =
    (ok tt, record w { rooms = update (λ r. r.id == room) (bumped time) w.rooms })

abbrev pub in_role : RoomRole → RoomMember → RoomMember
in_role role m = record m { role = role }

unfoldable pub update_member_role : ℕ → ℕ → RoomRole → Action ⊤
update_member_role room user role w =
    (ok tt, record w { room_members = update (at room user) (in_role role) w.room_members })

-- ON DELETE SET NULL, for a member who last read a message of the room.
abbrev pub forget_read : ℕ → List Message → RoomMember → RoomMember
forget_read room ms m = record m {
  last_read_message_id = elim m.last_read_message_id [
    | none ↦ none
    | some id ↦ if any (λ x. (x.id == id) && (x.room_id == room)) ms then none else some id
  ];
}

abbrev pub every {ℓ} : {A : Type ℓ} → A → Bool
every _ = true

-- DELETE FROM rooms, which cascades to the members and the messages.
unfoldable pub delete_room : ℕ → Action ⊤
delete_room id w = (
  ok tt,
  record w {
    rooms = remove (λ r. r.id == id) w.rooms;
    room_members =
        update every (forget_read id w.messages) (remove (λ m. m.room_id == id) w.room_members);
    messages = remove (λ x. x.room_id == id) w.messages;
  },
)
