-- ===== src/Ws/Router.antt =====
-- event-router.ts and the handlers of src/infrastructure/ws/handlers.
use Prim.Native.String
use Prim.Native.String.{String}
use text.Mathlib.Text.{◌==◌ as str_eq}
use backend_java_spring_boot.Storage.{head_object}
use backend_java_spring_boot.Prelude.{
  ℕ, ⊤, Option, none, some, is_some, List, ◌∷◌, filter, if◌then◌else◌,
}
use backend_java_spring_boot.Domain.{
  Error, not_found, conflict, forbidden, validation, auth, rate_limit, fault, Result, ok, err,
}
use backend_java_spring_boot.World.{World, publish, user_typing}
use backend_java_spring_boot.Presence.{heartbeat}
use backend_java_spring_boot.Store.Rooms
use backend_java_spring_boot.Json.{Json, Zod, ◌>>=◌ as ◌and_then◌}
use backend_java_spring_boot.Json.Schemas.{
  send_message_schema, room_ids_schema, room_id_schema, chat_edit_schema, chat_delete_schema,
  chat_read_schema, MessageInput,
}
use backend_java_spring_boot.Messages.UseCases.{
  SendInput, send_message, edit_message, delete_message, mark_as_read,
}
use backend_java_spring_boot.Controllers.{Outside, Moment}
use backend_java_spring_boot.Ws.Registry.{subscribe_all, unsubscribe_all}
use backend_java_spring_boot.Ws.Socket.{
  AckPayload, ClientEnvelope, parse_envelope, ack_sent, ack_edited, ack_deleted, ack_read,
  ack_subscribed, ack_unsubscribed, ack_time, ack_empty, Frame, ack, pong, error_frame, WsData, Hub,
  Ws, change, send, call, validate, ◌>>=◌, ◌>>◌,
}

-- The cases of the `switch`
pub data EventType : Type 0 where
  ping chat_subscribe chat_unsubscribe chat_send chat_edit chat_delete chat_read chat_typing
        presence_heartbeat :
      EventType

abbrev pub event_type : String → Option EventType
event_type s =
    if str_eq s "ping"
    then some ping
    else if str_eq s "chat.subscribe"
    then some chat_subscribe
    else if str_eq s "chat.unsubscribe"
    then some chat_unsubscribe
    else if str_eq s "chat.send"
    then some chat_send
    else if str_eq s "chat.edit"
    then some chat_edit
    else if str_eq s "chat.delete"
    then some chat_delete
    else if str_eq s "chat.read"
    then some chat_read
    else if str_eq s "chat.typing"
    then some chat_typing
    else if str_eq s "presence.heartbeat"
    then some presence_heartbeat
    else none

-- `err.name.toUpperCase().replace("ERROR", "")`, and the code of any other error
abbrev pub code_of : Error → String
code_of (not_found m) = "NOTFOUND"
code_of (conflict m) = "CONFLICT"
code_of (forbidden m) = "FORBIDDEN"
code_of (validation m) = "VALIDATION"
code_of (auth m) = "AUTH"
code_of (rate_limit after) = "RATELIMIT"
code_of fault = "INTERNAL_ERROR"

abbrev pub message_of : Error → String
message_of (not_found m) = m
message_of (conflict m) = m
message_of (forbidden m) = m
message_of (validation m) = m
message_of (auth m) = m
message_of (rate_limit after) = "Too many requests"
message_of fault = "Internal server error"

-- The fields of `ChatSendPayloadSchema`
abbrev pub chat_send_schema : Zod → Json → Option (ℕ × MessageInput)
chat_send_schema zod j = room_id_schema zod j and_then λ room.
    send_message_schema zod j and_then λ input. some (room, input)

-- The rooms of a list that a user is in, as `subscribed` lists them
abbrev pub rooms_joined : World → (user : ℕ) → List ℕ → List ℕ
rooms_joined w user rooms = filter (λ room. is_some (Rooms.get_member room user w)) rooms

module _ (out : Outside) (moment : Moment) (ws : WsData) where
  abbrev pub now : ℕ
  now = moment.clocks.now

  abbrev pub acknowledge : ClientEnvelope → AckPayload → Ws ⊤
  acknowledge envelope payload = send (ack envelope.ref_id payload now)

  unfoldable pub handle_subscribe : ClientEnvelope → Ws ⊤
  handle_subscribe envelope = do
    rooms ← validate out.zod "ChatSubscribePayloadSchema" (room_ids_schema out.zod) envelope.payload
    λ s.
        acknowledge envelope (ack_subscribed (rooms_joined s.world ws.user_id rooms))
          (record s { registry = subscribe_all s.world ws.user_id ws.conn_id rooms s.registry })

  unfoldable pub handle_unsubscribe : ClientEnvelope → Ws ⊤
  handle_unsubscribe envelope = do
    rooms ←
        validate out.zod "ChatUnsubscribePayloadSchema" (room_ids_schema out.zod) envelope.payload
    change (λ s. record s { registry = unsubscribe_all ws.conn_id rooms s.registry })
    acknowledge envelope (ack_unsubscribed rooms)

  abbrev pub input_of : ClientEnvelope → ℕ × MessageInput → SendInput
  input_of envelope payload = record {
    room_id = payload.0;
    sender_id = ws.user_id;
    body = payload.1.body;
    attachment_key = payload.1.attachment_key;
    client_message_id = payload.1.client_message_id;
    ref_id = envelope.ref_id;
  }

  unfoldable pub handle_send : ClientEnvelope → Ws ⊤
  handle_send envelope = do
    payload ← validate out.zod "ChatSendPayloadSchema" (chat_send_schema out.zod) envelope.payload
    msg ←
        call
          (send_message (head_object out.aws out.storage) now moment.id (input_of envelope payload))
    acknowledge envelope (ack_sent msg.id msg.created_at)

  unfoldable pub handle_edit : ClientEnvelope → Ws ⊤
  handle_edit envelope = do
    edit ← validate out.zod "ChatEditPayloadSchema" (chat_edit_schema out.zod) envelope.payload
    msg ← call (edit_message now ws.user_id edit.message_id edit.body)
    acknowledge envelope (ack_edited msg.id msg.edited_at)

  unfoldable pub handle_delete : ClientEnvelope → Ws ⊤
  handle_delete envelope = do
    id ← validate out.zod "ChatDeletePayloadSchema" (chat_delete_schema out.zod) envelope.payload
    call (delete_message moment.clocks.db_now ws.user_id id)
    acknowledge envelope (ack_deleted id)

  unfoldable pub handle_read : ClientEnvelope → Ws ⊤
  handle_read envelope = do
    mark ← validate out.zod "ChatReadPayloadSchema" (chat_read_schema out.zod) envelope.payload
    call (mark_as_read ws.user_id mark.room_id mark.message_id)
    acknowledge envelope (ack_read mark.room_id mark.message_id)

  -- `if (!member) return`
  unfoldable pub type_in : ClientEnvelope → (room : ℕ) → Ws ⊤
  type_in envelope room s =
      if is_some (Rooms.get_member room ws.user_id s.world)
      then (call (publish room (user_typing room ws.user_id)) >> acknowledge envelope ack_empty) s
      else (ok tt, s)

  unfoldable pub handle_typing : ClientEnvelope → Ws ⊤
  unfolding type_in
  handle_typing envelope = do
    room ← validate out.zod "ChatTypingPayloadSchema" (room_id_schema out.zod) envelope.payload
    type_in envelope room

  unfoldable pub handle_heartbeat : ClientEnvelope → Ws ⊤
  handle_heartbeat envelope = do
    change (λ s. record s { presence = heartbeat ws.user_id ws.conn_id s.presence })
    acknowledge envelope (ack_time now)

  -- The `switch` of `dispatch`
  unfoldable pub handle : Option EventType → ClientEnvelope → Ws ⊤
  unfolding handle_subscribe handle_unsubscribe handle_send handle_edit handle_delete handle_read
      handle_typing handle_heartbeat
  handle (some ping) envelope = send (pong envelope.ref_id now)
  handle (some chat_subscribe) envelope = handle_subscribe envelope
  handle (some chat_unsubscribe) envelope = handle_unsubscribe envelope
  handle (some chat_send) envelope = handle_send envelope
  handle (some chat_edit) envelope = handle_edit envelope
  handle (some chat_delete) envelope = handle_delete envelope
  handle (some chat_read) envelope = handle_read envelope
  handle (some chat_typing) envelope = handle_typing envelope
  handle (some presence_heartbeat) envelope = handle_heartbeat envelope
  handle none envelope = send (
      error_frame envelope.ref_id "UNKNOWN_TYPE" (String.◌++◌ "Unknown event type: " envelope.kind)
        now)

  abbrev pub send_to : Frame → Hub → Hub
  send_to frame s = record s { sent = frame ∷ s.sent }

  -- The `catch` around the `switch`
  abbrev pub caught : ClientEnvelope → Result ⊤ × Hub → Hub
  caught envelope (ok a, s) = s
  caught envelope (err e, s) =
      send_to (error_frame envelope.ref_id (code_of e) (message_of e) now) s

  abbrev pub dispatch_parsed : Option ClientEnvelope → Hub → Hub
  dispatch_parsed none s =
      send_to (error_frame none "INVALID_ENVELOPE" "Invalid message format" now) s
  dispatch_parsed (some envelope) s = caught envelope (handle (event_type envelope.kind) envelope s)

  -- `EventRouter.dispatch`, of what `JSON.parse` makes of a frame
  unfoldable pub dispatch : Option Json → Hub → Hub
  unfolding handle parse_envelope
  dispatch raw s = dispatch_parsed (parse_envelope raw) s
