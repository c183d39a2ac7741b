-- ===== src/Messages/Sending.antt =====
-- What a send stores and publishes, and what a repeated one does.
use Prim.Native.String.{String}
use text.Mathlib.TextPositions.{eq_refl}
use backend_java_spring_boot.Prelude.{
  ℕ, ◌≡◌, refl, inl, inr, Bool, true, false, not, ◌&&◌, none, some, ◌∷◌, update, is_some, ◌==◌,
  arith, Option-cases,
}
use backend_java_spring_boot.Domain.{Error, Message, to_message_dto, ok, err, forbidden, conflict}
use backend_java_spring_boot.World.{World, message_created}
use backend_java_spring_boot.Store.Rooms
use backend_java_spring_boot.Store.Rooms.{bumped}
use backend_java_spring_boot.Store.Messages
use backend_java_spring_boot.Store.Messages.{
  insert, insert_allowed, earlier_send, same_send, client_eq,
}
use backend_java_spring_boot.Messages.UseCases.{
  SendInput, composed, attachment_missing, send_message,
}

module _ (stored : String → Bool) where
  -- The sender is in the room, and what is attached was uploaded.
  abbrev pub may_send : SendInput → World → Bool
  may_send input w =
      is_some (Rooms.get_member input.room_id input.sender_id w)
      && not (attachment_missing stored input.attachment_key)

  -- The tables and the bus after a send that answered with the message `msg`: beside the row that
  -- the insert may have added, the room that the request names is marked as active now, and the
  -- message is published on that room's channel.
  abbrev pub sent : ℕ → SendInput → Message → World → World
  sent now input msg w = record w {
    rooms = update (λ r. r.id == input.room_id) (bumped now) w.rooms;
    published =
        (input.room_id, message_created (to_message_dto msg) input.ref_id input.sender_id)
        ∷ w.published;
  }

  -- A send by somebody who is not in the room, or with an attachment that is not in the
  -- storage, raises, and changes nothing.
  pub send_refused :
      (now id : ℕ) (input : SendInput) (w : World)
      → may_send input w ≡ false
      → (e : Error) × (send_message stored now id input w ≡ (err e, w))
  unfolding send_message
  send_refused now id input w h =
      elim (Option-cases (Rooms.get_member input.room_id input.sender_id w)) [
        | inl m ↦ (forbidden "Not a member of this room", rw m)
        | inr (y, m) ↦
            let missing : attachment_missing stored input.attachment_key ≡ true =
              ground (arith, rw m at h) in
            (conflict "Attachment not found; upload it first via presign", rw m (rw missing))
      ]

  pub send_lem :
      (now id : ℕ) (input : SendInput) (w : World)
      → may_send input w ≡ true
      → (msg : Message) (v : World) → insert (composed now id input) w ≡ (ok msg, v)
      → send_message stored now id input w ≡ (ok (to_message_dto msg), sent now input msg v)
  unfolding send_message Rooms.bump_last_message_at
  send_lem now id input w h msg v e =
      elim (Option-cases (Rooms.get_member input.room_id input.sender_id w)) [
        | inl m ↦ absurd (ground (arith, rw m at h))
        | inr (y, m) ↦
            let there : attachment_missing stored input.attachment_key ≡ false =
              ground (arith, rw m at h) in
            rw m (rw there (rw e))
      ]

  -- A new message of a sender who may send is stored as composed, answered with, and published
  -- once, on the channel of its own room.
  pub send_stores_and_publishes :
      (now id : ℕ) (input : SendInput) (w : World)
      → may_send input w ≡ true
      → earlier_send (composed now id input) w ≡ none
      → insert_allowed (composed now id input) w ≡ true
      → let msg = composed now id input in
        let (r, w') = send_message stored now id input w in
        (r ≡ ok (to_message_dto msg))
        × (Messages.find_by_id id w' ≡ some msg)
        × (w'.messages ≡ msg ∷ w.messages)
        × (w'.published
            ≡ (msg.room_id, message_created (to_message_dto msg) input.ref_id input.sender_id)
              ∷ w.published)
  send_stores_and_publishes now id input w h fresh allowed =
      let msg = composed now id input in
      let row : insert msg w ≡ (ok msg, record w { messages = msg ∷ w.messages }) =
        unfold insert in rw fresh (rw allowed) in
      rw (send_lem now id input w h msg _ row) (refl, ground arith, refl, refl)

  -- A send, by somebody who may send, that repeats the client's id of an earlier one of the same
  -- sender answers with the earlier message and stores no further one; all that changes is that
  -- the room that the repeated request names is marked as active now, and that the earlier message
  -- is published again, on the channel of that room.
  pub send_repeated :
      (now id : ℕ) (input : SendInput) (earlier : Message) (w : World)
      → may_send input w ≡ true
      → earlier_send (composed now id input) w ≡ some earlier
      → send_message stored now id input w ≡ (ok (to_message_dto earlier), sent now input earlier w)
  send_repeated now id input earlier w h old =
      let row : insert (composed now id input) w ≡ (ok earlier, w) = unfold insert in rw old in
      send_lem now id input w h earlier w row

  -- After a send with a client's id, by somebody who may send and under keys that the table
  -- admits, the same request again, with another id and at another time, answers with the same
  -- message and stores no further one; all that the repetition changes is that the room is marked
  -- as active at the later time, and that the message is published again.
  pub send_twice :
      (now later id id' : ℕ) (input : SendInput) (client : String) (w : World)
      → input.client_message_id ≡ some client
      → may_send input w ≡ true
      → insert_allowed (composed now id input) w ≡ true
      → let (r, w') = send_message stored now id input w in
        let (r', w'') = send_message stored later id' input w' in
        (m : Message) × (r ≡ ok (to_message_dto m)) × (r' ≡ r) × (w'' ≡ sent later input m w')
  send_twice now later id id' input client w c h allowed =
      let msg = composed now id input in
      elim (Option-cases (earlier_send msg w)) [
        | inl fresh ↦
            let row : insert msg w ≡ (ok msg, record w { messages = msg ∷ w.messages }) =
              unfold insert in rw fresh (rw allowed) in
            let self : (input.sender_id == input.sender_id) ≡ true = ground arith in
            let v = sent now input msg (record w { messages = msg ∷ w.messages }) in
            let old : earlier_send (composed later id' input) v ≡ some msg =
              rw (self, c) (rw (eq_refl client)) in
            rw (send_lem now id input w h msg _ row)
              (rw (send_repeated later id' input msg v h old) (msg, refl, refl, refl))
        | inr (m, old) ↦
            let row : insert msg w ≡ (ok m, w) = unfold insert in rw old in
            rw (send_lem now id input w h m w row) (
              rw (send_repeated later id' input m (sent now input m w) h old) (m, refl, refl, refl))
      ]
