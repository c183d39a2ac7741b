-- ===== src/Messages/Tests.antt =====
-- Concrete runs of the messages' use cases.
use Prim.Native.String.{String}
use backend_java_spring_boot.Prelude.{
  arith, ◌==◌, ◌&&◌, count, ℕ, ◌≤◌, ◌≡◌, refl, ◌⊎◌, Bool, false, none, some, [], ◌∷◌, All, length,
}
use backend_java_spring_boot.Domain.{
  ok, User, Room, group, RoomMember, owner, Message, to_message_dto, err, not_found,
}
use backend_java_spring_boot.World.{World}
use backend_java_spring_boot.Store.Messages
use backend_java_spring_boot.Store.Messages.{edited, in_page, list_by_room}
use backend_java_spring_boot.Messages.UseCases.{
  SendInput, send_message, edit_message, delete_message,
}
use backend_java_spring_boot.Messages.Sending.{sent, send_repeated, send_twice}
use backend_java_spring_boot.Messages.Deleting.{deleted_message_is_gone}
use backend_java_spring_boot.Messages.Pages.{with_id, list_by_room_complete}

abbrev ada : User
ada = record {
  id = 1;
  email = "ada@x";
  password_hash = "";
  display_name = "Ada";
  avatar_url = none;
  email_verified_at = none;
  created_at = 1;
  updated_at = 1;
}

abbrev room_of_ada : ℕ → Room
room_of_ada id = record {
  id = id;
  kind = group;
  name = some "team";
  created_by = some 1;
  dm_key = none;
  last_message_at = none;
  created_at = 1;
}

abbrev seat_of_ada : ℕ → RoomMember
seat_of_ada room = record {
  room_id = room;
  user_id = 1;
  role = owner;
  joined_at = 1;
  last_read_message_id = none;
  muted_until = none;
}

abbrev hello : ℕ → Message
hello id = record {
  id = id;
  room_id = 7;
  sender_id = 1;
  body = "hello";
  client_message_id = some "c1";
  attachment_key = none;
  attachment_meta = none;
  edited_at = none;
  deleted_at = none;
  created_at = 3;
}

abbrev quiet : World
quiet = record {
  users = ada ∷ [];
  refresh_tokens = [];
  email_tokens = [];
  rooms = room_of_ada 7 ∷ room_of_ada 8 ∷ [];
  room_members = seat_of_ada 7 ∷ seat_of_ada 8 ∷ [];
  messages = [];
  published = [];
  mails = [];
}

abbrev greeted : World
greeted = record quiet { messages = hello 50 ∷ [] }

abbrev no_storage : String → Bool
no_storage _ = false

-- A text of Ada's for the room.
abbrev text_to : ℕ → SendInput
text_to room = record {
  room_id = room;
  sender_id = 1;
  body = "hello";
  attachment_key = none;
  client_message_id = some "c1";
  ref_id = none;
}

-- The earlier message, of the room 7, is published in the room 8.
send_repeated_example :
    send_message no_storage 4 51 (text_to 8) greeted
    ≡ (ok (to_message_dto (hello 50)), sent no_storage 4 (text_to 8) (hello 50) greeted)
send_repeated_example = send_repeated no_storage 4 51 (text_to 8) (hello 50) greeted refl refl

send_twice_example :
    let (r, w') = send_message no_storage 4 51 (text_to 7) quiet in
    let (r', w'') = send_message no_storage 5 52 (text_to 7) w' in
    (m : Message) × (r ≡ ok (to_message_dto m))
    × (r' ≡ r)
    × (w'' ≡ sent no_storage 5 (text_to 7) m w')
send_twice_example = send_twice no_storage 4 5 51 52 (text_to 7) "c1" quiet refl refl refl

deleted_message_is_gone_example :
    let w' = (delete_message 9 1 50 greeted).1 in
    ((m : Message) × (Messages.find_by_id 50 w' ≡ some m)
      × (m.body ≡ "")
      × (m.attachment_key ≡ none)
      × (m.attachment_meta ≡ none))
    × (edit_message 10 1 50 "bye" w' ≡ (err (not_found "Message not found"), w'))
    × (delete_message 10 1 50 w' ≡ (err (not_found "Message not found"), w'))
deleted_message_is_gone_example = deleted_message_is_gone 9 10 1 1 50 "bye" greeted refl

list_by_room_complete_example :
    let page = list_by_room 7 (some 60) 5 greeted in
    (with_id 50 page ≡ count (λ m. (m.room_id == 7) && (m.id == 50)) greeted.messages)
    ⊎ ((length page ≡ 5) × All (λ m. 50 ≤ m.id) page)
list_by_room_complete_example = list_by_room_complete 7 (some 60) 5 50 greeted (omega arith)
