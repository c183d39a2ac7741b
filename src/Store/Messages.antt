-- ===== src/Store/Messages.antt =====
-- PgMessageRepository, and the constraints of migrations/0003_messages.sql and 0004 on its
-- table.
use Prim.Native.String.{String}
use text.Mathlib.Text.{◌==◌ as str_eq}
use backend_java_spring_boot.Prelude.{
  ℕ, Bool, true, false, ◌&&◌, not, Option, none, some, List, ◌∷◌, any, find?, filter, update, take,
  sort_by, newest_first, ◌==◌, ltb, if◌then◌else◌,
}
use backend_java_spring_boot.Domain.{Message, fault, err, ok, Result}
use backend_java_spring_boot.World.{World, Action, row_or_fault}
use backend_java_spring_boot.Store.Users.{user_exists}
use backend_java_spring_boot.Store.Rooms.{room_exists}

-- Equality of SQL on the client's id: null equals nothing.
abbrev pub client_eq : Option String → Option String → Bool
client_eq none _ = false
client_eq (some a) none = false
client_eq (some a) (some b) = str_eq a b

-- The partial unique index on (sender_id, client_message_id).
abbrev pub same_send : Message → Message → Bool
same_send msg m =
    (m.sender_id == msg.sender_id) && client_eq m.client_message_id msg.client_message_id

abbrev pub earlier_send : Message → World → Option Message
earlier_send msg w = find? (same_send msg) w.messages

abbrev pub insert_allowed : Message → World → Bool
insert_allowed msg w =
    not (any (λ m. m.id == msg.id) w.messages)
    && (room_exists msg.room_id w && user_exists msg.sender_id w)

-- INSERT … ON CONFLICT DO UPDATE SET created_at = messages.created_at RETURNING *: the row that
-- is there comes back as it is.
abbrev pub insert_or : Option Message → Message → World → Result Message × World
insert_or (some earlier) msg w = (ok earlier, w)
insert_or none msg w =
    if insert_allowed msg w
    then (ok msg, record w { messages = msg ∷ w.messages })
    else (err fault, w)

unfoldable pub insert : Message → Action Message
insert msg w = insert_or (earlier_send msg w) msg w

abbrev pub find_by_id : ℕ → World → Option Message
find_by_id id w = find? (λ m. m.id == id) w.messages

-- `id < before`, where there is a cursor
abbrev pub before_cursor : Option ℕ → Message → Bool
before_cursor none m = true
before_cursor (some before) m = ltb m.id before

abbrev pub in_page : ℕ → Option ℕ → Message → Bool
in_page room before m = (m.room_id == room) && before_cursor before m

unfoldable pub list_by_room : (room : ℕ) → Option ℕ → (limit : ℕ) → World → List Message
list_by_room room before limit w =
    take limit (sort_by (newest_first (λ m. m.id)) (filter (in_page room before) w.messages))

abbrev pub edited : String → ℕ → Message → Message
edited body time m = record m { body = body; edited_at = some time }

-- `update`, with both fields of the patch, as its caller gives them
unfoldable pub update_message : ℕ → String → ℕ → Action Message
update_message id body time w =
    let after = record w { messages = update (λ m. m.id == id) (edited body time) w.messages } in
    row_or_fault (find_by_id id after) after

abbrev pub erased : ℕ → Message → Message
erased db_now m = record m {
  deleted_at = some db_now;
  body = "";
  attachment_key = none;
  attachment_meta = none;
}

unfoldable pub soft_delete : ℕ → ℕ → Action Message
soft_delete db_now id w =
    let after = record w { messages = update (λ m. m.id == id) (erased db_now) w.messages } in
    row_or_fault (find_by_id id after) after
