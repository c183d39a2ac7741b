-- ===== src/Ws/Lifetime.antt =====
-- From `open` to `close` of gateway.ts: what the frames between them leave alone.
use Prim.Native.String.{String}
use backend_java_spring_boot.Storage.{head_object}
use backend_java_spring_boot.Prelude.{
  ℕ, ⊤, ◌≡◌, refl, ◌⊎◌, inl, inr, Bool-cases, Option, none, some, is_some,
}
use backend_java_spring_boot.Domain.{Error, Result, ok, err}
use backend_java_spring_boot.World.{Action}
use backend_java_spring_boot.Store.Rooms
use backend_java_spring_boot.Presence.{heartbeat}
use backend_java_spring_boot.Json.{Json}
use backend_java_spring_boot.Messages.UseCases.{
  send_message, edit_message, delete_message, mark_as_read,
}
use backend_java_spring_boot.Controllers.{Outside, Moment}
use backend_java_spring_boot.Ws.Socket.{
  ClientEnvelope, parse_envelope, WsData, Hub, Ws, go_on, or_refuse, validate, call, AckPayload,
  ack_sent, ack_edited, ack_deleted, ack_read,
}
use backend_java_spring_boot.Ws.Router.{
  EventType, ping, chat_subscribe, chat_unsubscribe, chat_send, chat_edit, chat_delete, chat_read,
  chat_typing, presence_heartbeat, event_type, handle, handle_subscribe, handle_unsubscribe,
  handle_send, handle_edit, handle_delete, handle_read, handle_typing, handle_heartbeat, type_in,
  acknowledge, input_of, caught, dispatch_parsed, dispatch,
}

-- A call that leaves the presence and the open sockets as they are.
abbrev pub Spares : Hub → Hub → Type 0
Spares before after =
    (after.presence ≡ before.presence)
    × (after.user_conns ≡ before.user_conns)
    × (after.presence_unsub ≡ before.presence_unsub)

go_on-Spares :
    {A : Type 0} (before : Hub) (r : Result A × Hub) (k : A → Ws ⊤)
    → Spares before r.1
    → ((a : A) (s : Hub) → Spares before s → Spares before (k a s).1)
    → Spares before (go_on r k).1
go_on-Spares before (ok a, s) k h f = f a s h
go_on-Spares before (err e, s) k h f = h

refuse-Spares : {A : Type 0} (a : Option A) (e : Error) (s : Hub) → Spares s (or_refuse a e s).1
refuse-Spares none e s = (refl, refl, refl)
refuse-Spares (some a) e s = (refl, refl, refl)

module _ (out : Outside) (moment : Moment) (ws : WsData) where
  -- What a frame of the socket does to them: its heartbeat counts its connection.
  abbrev pub Beats : Hub → Hub → Type 0
  Beats before after =
      ((after.presence ≡ before.presence)
        ⊎ (after.presence ≡ heartbeat ws.user_id ws.conn_id before.presence))
      × (after.user_conns ≡ before.user_conns)
      × (after.presence_unsub ≡ before.presence_unsub)

  spared : (before after : Hub) → Spares before after → Beats before after
  spared before after (p, u, o) = (inl p, u, o)

  validated :
      {A : Type 0} (name : String) (schema : Json → Option A) (envelope : ClientEnvelope) (s : Hub)
      → (k : A → Ws ⊤) → ((a : A) (u : Hub) → Spares s u → Spares s (k a u).1)
      → Beats s (go_on (validate out.zod name schema envelope.payload s) k).1
  validated name schema envelope s k h =
      spared s (go_on (validate out.zod name schema envelope.payload s) k).1
        (go_on-Spares s (validate out.zod name schema envelope.payload s) k (refuse-Spares _ _ s) h)

  called :
      {A : Type 0} (s u : Hub) (m : Action A) (envelope : ClientEnvelope) (f : A → AckPayload)
      → Spares s u
      → Spares s (go_on (call m u) (λ a. acknowledge out moment ws envelope (f a))).1
  called s u m envelope f h =
      go_on-Spares s (call m u) (λ a. acknowledge out moment ws envelope (f a)) h (λ a v k. k)

  type_in-Spares :
      (envelope : ClientEnvelope) (room : ℕ) (before s : Hub)
      → Spares before s
      → Spares before (type_in out moment ws envelope room s).1
  unfolding type_in
  type_in-Spares envelope room before s h =
      elim (Bool-cases (is_some (Rooms.get_member room ws.user_id s.world))) [
        | inl m ↦ rw m h
        | inr m ↦ rw m h
      ]

  handle-Beats :
      (t : Option EventType) (envelope : ClientEnvelope) (s : Hub)
      → Beats s (handle out moment ws t envelope s).1
  unfolding handle handle_subscribe handle_unsubscribe handle_send handle_edit handle_delete
      handle_read handle_typing handle_heartbeat
  handle-Beats none envelope s = (inl refl, refl, refl)
  handle-Beats (some ping) envelope s = (inl refl, refl, refl)
  handle-Beats (some chat_subscribe) envelope s = validated _ _ envelope s _ (λ rooms u h. h)
  handle-Beats (some chat_unsubscribe) envelope s = validated _ _ envelope s _ (λ rooms u h. h)
  handle-Beats (some chat_send) envelope s = validated _ _ envelope s _ (λ payload u h.
      called s u
        (send_message (head_object out.aws out.storage) moment.clocks.now moment.id
          (input_of out moment ws envelope payload))
        envelope (λ msg. ack_sent msg.id msg.created_at) h)
  handle-Beats (some chat_edit) envelope s = validated _ _ envelope s _ (λ edit u h.
      called s u (edit_message moment.clocks.now ws.user_id edit.message_id edit.body) envelope
        (λ msg. ack_edited msg.id msg.edited_at) h)
  handle-Beats (some chat_delete) envelope s = validated _ _ envelope s _ (λ id u h.
      called s u (delete_message moment.clocks.db_now ws.user_id id) envelope (λ _. ack_deleted id)
        h)
  handle-Beats (some chat_read) envelope s = validated _ _ envelope s _ (λ mark u h.
      called s u (mark_as_read ws.user_id mark.room_id mark.message_id) envelope
        (λ _. ack_read mark.room_id mark.message_id) h)
  handle-Beats (some chat_typing) envelope s =
      validated _ _ envelope s _ (λ room u h. type_in-Spares envelope room s u h)
  handle-Beats (some presence_heartbeat) envelope s = (inr refl, refl, refl)

  caught-Beats :
      (envelope : ClientEnvelope) (before : Hub) (r : Result ⊤ × Hub)
      → Beats before r.1
      → Beats before (caught out moment ws envelope r)
  caught-Beats envelope before (ok a, s) h = h
  caught-Beats envelope before (err e, s) h = h

  parsed-Beats : (e : Option ClientEnvelope) (s : Hub) → Beats s (dispatch_parsed out moment ws e s)
  parsed-Beats none s = (inl refl, refl, refl)
  parsed-Beats (some envelope) s =
      caught-Beats envelope s _ (handle-Beats (event_type envelope.kind) envelope s)

  pub dispatch-Beats : (raw : Option Json) (s : Hub) → Beats s (dispatch out moment ws raw s)
  unfolding dispatch
  dispatch-Beats raw s = parsed-Beats (parse_envelope raw) s
