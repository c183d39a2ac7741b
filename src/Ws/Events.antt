-- ===== src/Ws/Events.antt =====
-- The envelope that `fanOutBusEvent` of connection-registry.ts sends for an event of a room, and
-- chat-typing.ts.
use Prim.Native.String.{String}
use backend_java_spring_boot.Prelude.{ℕ, ⊤, Option, none, is_some, if◌then◌else◌}
use backend_java_spring_boot.Domain.{MessageDto}
use backend_java_spring_boot.World.{
  BusEvent, message_created, message_edited, message_deleted, message_read, user_typing, Action,
  pure, gets, publish, ◌>>=◌,
}
use backend_java_spring_boot.Store.Rooms

pub data Payload : Type 0 where
  of_message : (message : MessageDto) → Payload
  of_deleted : (message_id room_id : ℕ) → Payload
  of_read : (room_id user_id message_id : ℕ) → Payload
  of_typing : (room_id user_id : ℕ) → Payload

pub record Envelope : Type 0 where
  pub kind : String
  pub payload : Payload
  pub ref_id : Option String
  pub ts : ℕ

-- At the time `now`.
unfoldable pub envelope_of : (now : ℕ) → BusEvent → Envelope
envelope_of now (message_created message ref_id origin_user_id) = record {
  kind = "message.created";
  payload = of_message message;
  ref_id = ref_id;
  ts = now;
}
envelope_of now (message_edited message) = record {
  kind = "message.edited";
  payload = of_message message;
  ref_id = none;
  ts = now;
}
envelope_of now (message_deleted message_id room_id) = record {
  kind = "message.deleted";
  payload = of_deleted message_id room_id;
  ref_id = none;
  ts = now;
}
envelope_of now (message_read room_id user_id message_id) = record {
  kind = "message.read";
  payload = of_read room_id user_id message_id;
  ref_id = none;
  ts = now;
}
envelope_of now (user_typing room_id user_id) = record {
  kind = "user.typing";
  payload = of_typing room_id user_id;
  ref_id = none;
  ts = now;
}

-- `handleChatTyping`, without its acknowledgement
unfoldable pub chat_typing : (user room : ℕ) → Action ⊤
chat_typing user room = do
  member ← gets (Rooms.get_member room user)
  if is_some member then publish room (user_typing room user) else pure tt
