-- ===== src/Messages/UseCases.antt =====
-- send-message.ts, edit-message.ts, delete-message.ts, list-messages.ts and mark-as-read.ts
use Prim.Native.String.{String}
use text.Mathlib.Text.{◌==◌ as str_eq}
use backend_java_spring_boot.Prelude.{
  ℕ, ⊤, Bool, true, false, not, Option, none, some, is_some, is_none, List, map, ◌==◌,
  if◌then◌else◌,
}
use backend_java_spring_boot.Domain.{
  Message, MessageDto, to_message_dto, RoomMember, forbidden, not_found, conflict,
}
use backend_java_spring_boot.World.{
  message_created, message_edited, message_deleted, message_read, Action, pure, gets, raise_if,
  or_raise, publish, ◌>>=◌, ◌>>◌,
}
use backend_java_spring_boot.Store.Rooms
use backend_java_spring_boot.Store.Messages
use backend_java_spring_boot.Rooms.Authorizer.{is_member_role}

pub record SendInput : Type 0 where
  pub room_id : ℕ
  pub sender_id : ℕ
  pub body : String
  pub attachment_key : Option String
  pub client_message_id : Option String
  pub ref_id : Option String

-- The message as `SendMessage.execute` hands it to the repository.
abbrev pub composed : (now id : ℕ) → SendInput → Message
composed now id input = record {
  id = id;
  room_id = input.room_id;
  sender_id = input.sender_id;
  body = input.body;
  client_message_id = input.client_message_id;
  attachment_key = input.attachment_key;
  attachment_meta = none;
  edited_at = none;
  deleted_at = none;
  created_at = now;
}

-- `stored` is what `ObjectStorage.headObject` answers during the call.
module _ (stored : String → Bool) where
  -- A key that is given and not empty has to be in the storage.
  abbrev pub attachment_missing : Option String → Bool
  attachment_missing none = false
  attachment_missing (some key) = if str_eq key "" then false else not (stored key)

  -- `SendMessage.execute`
  unfoldable pub send_message : (now id : ℕ) → SendInput → Action MessageDto
  send_message now id input = do
    member ← gets (Rooms.get_member input.room_id input.sender_id)
    raise_if (is_none member) (forbidden "Not a member of this room")
    raise_if (attachment_missing input.attachment_key)
        (conflict "Attachment not found; upload it first via presign")
    msg ← Messages.insert (composed now id input)
    Rooms.bump_last_message_at input.room_id now
    publish input.room_id (message_created (to_message_dto msg) input.ref_id input.sender_id)
    pure (to_message_dto msg)

-- The end of `EditMessage.execute`, once the requester may edit.
unfoldable pub edit_found : (now message_id : ℕ) → String → Message → Action MessageDto
edit_found now message_id body msg = do
  updated ← Messages.update_message message_id body now
  publish msg.room_id (message_edited (to_message_dto updated))
  pure (to_message_dto updated)

-- `EditMessage.execute`
unfoldable pub edit_message : (now requester message_id : ℕ) → String → Action MessageDto
unfolding edit_found
edit_message now requester message_id body = do
  found ← gets (Messages.find_by_id message_id)
  msg ← or_raise found (not_found "Message not found")
  raise_if (is_some msg.deleted_at) (not_found "Message not found")
  raise_if (not (msg.sender_id == requester)) (forbidden "Cannot edit another user's message")
  if str_eq msg.body body then pure (to_message_dto msg) else edit_found now message_id body msg

-- `!member || member.role === "member"`
abbrev pub lacks_authority : Option RoomMember → Bool
lacks_authority none = true
lacks_authority (some m) = is_member_role m.role

-- The check of `DeleteMessage.execute` on somebody else's message.
unfoldable pub assert_may_moderate : ℕ → Message → Action ⊤
assert_may_moderate requester msg = if msg.sender_id == requester then pure tt else do
  member ← gets (Rooms.get_member msg.room_id requester)
  raise_if (lacks_authority member) (forbidden "Cannot delete another user's message")

-- `DeleteMessage.execute`
unfoldable pub delete_message : (db_now requester message_id : ℕ) → Action ⊤
unfolding assert_may_moderate
delete_message db_now requester message_id = do
  found ← gets (Messages.find_by_id message_id)
  msg ← or_raise found (not_found "Message not found")
  raise_if (is_some msg.deleted_at) (not_found "Message not found")
  assert_may_moderate requester msg
  Messages.soft_delete db_now message_id
  publish msg.room_id (message_deleted message_id msg.room_id)

-- `ListMessages.execute`
unfoldable pub list_messages :
    (room requester : ℕ) → Option ℕ → (limit : ℕ) → Action (List MessageDto)
list_messages room requester before limit = do
  member ← gets (Rooms.get_member room requester)
  raise_if (is_none member) (forbidden "Not a member of this room")
  messages ← gets (Messages.list_by_room room before limit)
  pure (map to_message_dto messages)

-- `!msg || msg.roomId !== roomId`, for a room whose id is spelt as the database prints it
abbrev pub outside_room : ℕ → Option Message → Bool
outside_room room none = true
outside_room room (some msg) = not (msg.room_id == room)

-- `MarkAsRead.execute`
unfoldable pub mark_as_read : (user room message_id : ℕ) → Action ⊤
mark_as_read user room message_id = do
  member ← gets (Rooms.get_member room user)
  raise_if (is_none member) (forbidden "Not a member of this room")
  msg ← gets (Messages.find_by_id message_id)
  raise_if (outside_room room msg) (not_found "Message not found")
  Rooms.set_last_read_message room user message_id
  publish room (message_read room user message_id)
