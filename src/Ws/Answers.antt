-- ===== src/Ws/Answers.antt =====
-- What a socket is sent in return for a frame: event-router.ts with its handlers.
use Prim.Native.String.{String}
use backend_java_spring_boot.Storage.{head_object}
use backend_java_spring_boot.Prelude.{
  ℕ, ⊤, ◌≡◌, refl, ◌⊎◌, inl, inr, Option-cases, Option, none, some, is_none, Bool, true, false,
  List, ◌∷◌,
}
use backend_java_spring_boot.Domain.{Error, Result, ok, err}
use backend_java_spring_boot.World.{World, Action}
use backend_java_spring_boot.Store.Rooms
use backend_java_spring_boot.Json.{Json, ◌>>=◌ as ◌and_then◌}
use backend_java_spring_boot.Json.Schemas.{room_id_schema}
use backend_java_spring_boot.Messages.UseCases.{
  send_message, edit_message, delete_message, mark_as_read,
}
use backend_java_spring_boot.Controllers.{Outside, Moment}
use backend_java_spring_boot.Ws.Socket.{
  ClientEnvelope, parse_envelope, Frame, ack, pong, error_frame, WsData, Hub, Ws, go_on, or_refuse,
  validate, call, ack_empty, ack_sent, ack_edited, ack_deleted, ack_read,
}
use backend_java_spring_boot.Ws.Router.{
  EventType, ping, chat_subscribe, chat_unsubscribe, chat_send, chat_edit, chat_delete, chat_read,
  chat_typing, presence_heartbeat, event_type, handle, handle_subscribe, handle_unsubscribe,
  handle_send, handle_edit, handle_delete, handle_read, handle_typing, handle_heartbeat, type_in,
  acknowledge, input_of, caught, dispatch_parsed, dispatch,
}

-- The `refId` of a frame
abbrev pub ref_of : Frame → Option String
ref_of (ack ref payload ts) = ref
ref_of (pong ref ts) = ref
ref_of (error_frame ref code message ts) = ref

-- Of a frame with the reference, the socket is sent one more frame, with the same reference.
abbrev pub AnsweredOnce : Option String → (before after : Hub) → Type 0
AnsweredOnce ref before after = (f : Frame) × (ref_of f ≡ ref) × (after.sent ≡ f ∷ before.sent)

-- A handler that ends has answered once, and one that raises has not.
abbrev Answers : Option String → Hub → Result ⊤ × Hub → Type 0
Answers ref before (ok a, after) = AnsweredOnce ref before after
Answers ref before (err e, after) = after.sent ≡ before.sent

go_on-Answers :
    {A : Type 0} (ref : Option String) (before : Hub) (r : Result A × Hub) (k : A → Ws ⊤)
    → r.1.sent ≡ before.sent
    → ((a : A) (s : Hub) → s.sent ≡ before.sent → Answers ref before (k a s))
    → Answers ref before (go_on r k)
go_on-Answers ref before (ok a, s) k quiet answers = answers a s quiet
go_on-Answers ref before (err e, s) k quiet answers = quiet

refuse-quiet : {A : Type 0} (a : Option A) (e : Error) (s : Hub) → (or_refuse a e s).1.sent ≡ s.sent
refuse-quiet none e s = refl
refuse-quiet (some a) e s = refl

one_more : {f : Frame} {sent sent' : List Frame} → sent ≡ sent' → (f ∷ sent) ≡ (f ∷ sent')
one_more h = rw h refl

answer :
    (ref : Option String) (before s : Hub) (f : Frame)
    → ref_of f ≡ ref
    → s.sent ≡ before.sent
    → AnsweredOnce ref before (record s { sent = f ∷ s.sent })
answer ref before s f same quiet = (f, same, rw quiet refl)

module _ (out : Outside) (moment : Moment) (ws : WsData) where
  -- The room that a frame of the type names is there to read, and the user is not in it.
  abbrev pub is_outside : Option ℕ → World → Bool
  is_outside none w = false
  is_outside (some room) w = is_none (Rooms.get_member room ws.user_id w)

  -- Typing in a room that the user is not in
  abbrev pub is_outside_typing : Option EventType → Option Json → World → Bool
  is_outside_typing none payload w = false
  is_outside_typing (some ping) payload w = false
  is_outside_typing (some chat_subscribe) payload w = false
  is_outside_typing (some chat_unsubscribe) payload w = false
  is_outside_typing (some chat_send) payload w = false
  is_outside_typing (some chat_edit) payload w = false
  is_outside_typing (some chat_delete) payload w = false
  is_outside_typing (some chat_read) payload w = false
  is_outside_typing (some chat_typing) payload w =
      is_outside (payload and_then room_id_schema out.zod) w
  is_outside_typing (some presence_heartbeat) payload w = false

  abbrev pub is_passed_over : Option ClientEnvelope → World → Bool
  is_passed_over none w = false
  is_passed_over (some envelope) w = is_outside_typing (event_type envelope.kind) envelope.payload w

  type_in-Answers :
      (envelope : ClientEnvelope) (room : ℕ) (s : Hub)
      → ((is_outside (some room) s.world ≡ false)
          × Answers envelope.ref_id s (type_in out moment ws envelope room s))
        ⊎ ((is_outside (some room) s.world ≡ true)
            × (type_in out moment ws envelope room s ≡ (ok tt, s)))
  unfolding type_in
  type_in-Answers envelope room s = elim (Option-cases (Rooms.get_member room ws.user_id s.world)) [
    | inr (y, m) ↦ inl (
      rw m refl,
      rw m (answer envelope.ref_id s s (ack envelope.ref_id ack_empty moment.clocks.now) refl refl),
    )
    | inl m ↦ inr (rw m refl, rw m refl)
  ]

  -- A handler that has validated its payload goes on from the state that it was called in.
  validated :
      {A : Type 0} (name : String) (schema : Json → Option A) (envelope : ClientEnvelope) (s : Hub)
      → (k : A → Ws ⊤) → ((a : A) (u : Hub) → u.sent ≡ s.sent → Answers envelope.ref_id s (k a u))
      → Answers envelope.ref_id s (go_on (validate out.zod name schema envelope.payload s) k)
  validated name schema envelope s k h = go_on-Answers envelope.ref_id s _ k (refuse-quiet _ _ s) h

  -- A use case sends nothing to the socket.
  called :
      {A : Type 0} (envelope : ClientEnvelope) (s u : Hub) (m : Action A) (k : A → Ws ⊤)
      → u.sent ≡ s.sent
      → ((a : A) (v : Hub) → v.sent ≡ s.sent → Answers envelope.ref_id s (k a v))
      → Answers envelope.ref_id s (go_on (call m u) k)
  called envelope s u m k quiet h = go_on-Answers envelope.ref_id s (call m u) k quiet h

  handle-Answers :
      (t : Option EventType) (envelope : ClientEnvelope) (s : Hub)
      → ((is_outside_typing t envelope.payload s.world ≡ false)
          × Answers envelope.ref_id s (handle out moment ws t envelope s))
        ⊎ ((is_outside_typing t envelope.payload s.world ≡ true)
            × (handle out moment ws t envelope s ≡ (ok tt, s)))
  unfolding handle handle_subscribe handle_unsubscribe handle_send handle_edit handle_delete
      handle_read handle_typing handle_heartbeat
  handle-Answers none envelope s = inl (refl, (_, refl, refl))
  handle-Answers (some ping) envelope s = inl (refl, (_, refl, refl))
  handle-Answers (some chat_subscribe) envelope s =
      inl (refl, validated _ _ envelope s _ (λ rooms u quiet. (_, refl, one_more quiet)))
  handle-Answers (some chat_unsubscribe) envelope s =
      inl (refl, validated _ _ envelope s _ (λ rooms u quiet. (_, refl, one_more quiet)))
  handle-Answers (some chat_send) envelope s = inl (
    refl,
    validated _ _ envelope s _ (λ payload u quiet.
        called envelope s u
          (send_message (head_object out.aws out.storage) moment.clocks.now moment.id
            (input_of out moment ws envelope payload))
          (λ msg. acknowledge out moment ws envelope (ack_sent msg.id msg.created_at)) quiet
          (λ msg v still. (_, refl, one_more still))),
  )
  handle-Answers (some chat_edit) envelope s = inl (
    refl,
    validated _ _ envelope s _ (λ edit u quiet.
        called envelope s u (edit_message moment.clocks.now ws.user_id edit.message_id edit.body)
          (λ msg. acknowledge out moment ws envelope (ack_edited msg.id msg.edited_at)) quiet
          (λ msg v still. (_, refl, one_more still))),
  )
  handle-Answers (some chat_delete) envelope s = inl (
    refl,
    validated _ _ envelope s _ (λ id u quiet.
        called envelope s u (delete_message moment.clocks.db_now ws.user_id id)
          (λ _. acknowledge out moment ws envelope (ack_deleted id)) quiet
          (λ done v still. (_, refl, one_more still))),
  )
  handle-Answers (some chat_read) envelope s = inl (
    refl,
    validated _ _ envelope s _ (λ mark u quiet.
        called envelope s u (mark_as_read ws.user_id mark.room_id mark.message_id)
          (λ _. acknowledge out moment ws envelope (ack_read mark.room_id mark.message_id)) quiet
          (λ done v still. (_, refl, one_more still))),
  )
  handle-Answers (some chat_typing) envelope s =
      elim (Option-cases (envelope.payload and_then room_id_schema out.zod)) [
        | inl n ↦ inl (rw n refl, rw n refl)
        | inr (room, r) ↦ rw r (type_in-Answers envelope room s)
      ]
  handle-Answers (some presence_heartbeat) envelope s = inl (refl, (_, refl, refl))

  caught-Answers :
      (envelope : ClientEnvelope) (before : Hub) (r : Result ⊤ × Hub)
      → Answers envelope.ref_id before r
      → AnsweredOnce envelope.ref_id before (caught out moment ws envelope r)
  caught-Answers envelope before (ok a, s) h = h
  caught-Answers envelope before (err e, s) h = answer envelope.ref_id before s _ refl h

  -- The reference of a frame that is an envelope
  abbrev pub ref_in : Option ClientEnvelope → Option String
  ref_in none = none
  ref_in (some envelope) = envelope.ref_id

  parsed-answers :
      (e : Option ClientEnvelope) (s : Hub)
      → ((is_passed_over e s.world ≡ false)
          × AnsweredOnce (ref_in e) s (dispatch_parsed out moment ws e s))
        ⊎ ((is_passed_over e s.world ≡ true) × (dispatch_parsed out moment ws e s ≡ s))
  parsed-answers none s = inl (refl, (_, refl, refl))
  parsed-answers (some envelope) s = elim (handle-Answers (event_type envelope.kind) envelope s) [
    | inl (i, a) ↦ inl (i, caught-Answers envelope s _ a)
    | inr (t, e) ↦ inr (t, rw e refl)
  ]

  -- Whatever a socket sends, it is sent exactly one frame in return, an acknowledgement, a pong or
  -- an error, whose reference is the `refId` of its own frame where that is an envelope (not the
  -- frame's `id`); unless the frame says, with a payload that names a room, that its user types in
  -- that room, and the user is not in it: then, and only then, it is passed over and changes
  -- nothing.
  pub dispatch-answers :
      (raw : Option Json) (s : Hub)
      → ((is_passed_over (parse_envelope raw) s.world ≡ false)
          × AnsweredOnce (ref_in (parse_envelope raw)) s (dispatch out moment ws raw s))
        ⊎ ((is_passed_over (parse_envelope raw) s.world ≡ true)
            × (dispatch out moment ws raw s ≡ s))
  unfolding dispatch
  dispatch-answers raw s = parsed-answers (parse_envelope raw) s
