-- ===== src/Rooms/MessagesInvariant.antt =====
-- The rooms under the use cases on messages: send-message.ts, which marks the room as active, and
-- mark-as-read.ts, which marks the member's row.
use Prim.Native.String.{String}
use backend_java_spring_boot.Prelude.{
  ℕ, ◌≡◌, refl, ◌⊎◌, ◌∷◌, false, arith, inl, inr, Bool, true, not, any, ◌==◌, ◌&&◌, Bool-cases,
  Option-cases,
}
use backend_java_spring_boot.Domain.{Message, ok, err, fault}
use backend_java_spring_boot.World.{World}
use backend_java_spring_boot.Store.Rooms
use backend_java_spring_boot.Store.Rooms.{at, read_at, bumped}
use backend_java_spring_boot.Store.Messages
use backend_java_spring_boot.Store.Messages.{insert, insert_allowed, earlier_send}
use backend_java_spring_boot.Messages.UseCases.{
  SendInput, composed, send_message, mark_as_read, outside_room, attachment_missing,
}
use backend_java_spring_boot.Messages.Sending.{may_send, send_refused, send_lem}
use backend_java_spring_boot.Rooms.Orderly.{update-IsOrderly, rooms-IsOrderly}
use backend_java_spring_boot.Rooms.Invariant.{RoomsAreOrderly}

-- The insert of a message raises or comes back with a row, and leaves the rooms alone.
insert-rooms :
    (msg : Message) (w : World)
    → ((v : World) × (insert msg w ≡ (err fault, v))
        × (v.rooms ≡ w.rooms)
        × (v.room_members ≡ w.room_members))
      ⊎ ((m : Message) × (v : World) × (insert msg w ≡ (ok m, v))
          × (v.rooms ≡ w.rooms)
          × (v.room_members ≡ w.room_members))
unfolding insert
insert-rooms msg w = elim (Option-cases (earlier_send msg w)) [
  | inr (m, old) ↦ inr (m, w, rw old refl, refl, refl)
  | inl fresh ↦ elim (Bool-cases (insert_allowed msg w)) [
    | inl allowed ↦
        inr (msg, record w { messages = msg ∷ w.messages }, rw fresh (rw allowed refl), refl, refl)
    | inr clash ↦ inl (w, rw fresh (rw clash refl), refl, refl)
  ]
]

send_raised :
    (stored : String → Bool) (now id : ℕ) (input : SendInput) (w : World)
    → may_send stored input w ≡ true
    → (v : World) → insert (composed now id input) w ≡ (err fault, v)
    → send_message stored now id input w ≡ (err fault, v)
unfolding send_message
send_raised stored now id input w h v e =
    elim (Option-cases (Rooms.get_member input.room_id input.sender_id w)) [
      | inl m ↦ absurd (ground (arith, rw m at h))
      | inr (y, m) ↦
          let there : attachment_missing stored input.attachment_key ≡ false =
            ground (arith, rw m at h) in
          rw m (rw there (rw e refl))
    ]

-- A send keeps the rooms orderly, also where it raises.
pub send_message-Orderly :
    (stored : String → Bool) (now id : ℕ) (input : SendInput) (w : World)
    → RoomsAreOrderly w
    → RoomsAreOrderly (send_message stored now id input w).1
send_message-Orderly stored now id input w h = elim (Bool-cases (may_send stored input w)) [
  | inr barred ↦ let (e, same) = send_refused stored now id input w barred in rw same h
  | inl allowed ↦ elim (insert-rooms (composed now id input) w) [
    | inl (v, raised, same, kept) ↦
        rw (send_raised stored now id input w allowed v raised) (rw (same, kept) h)
    | inr (m, v, row, same, kept) ↦ rw (send_lem stored now id input w allowed m v row) (
        rooms-IsOrderly (λ r. r.id == input.room_id) (bumped now) v.rooms v.room_members (λ r. refl)
          (λ r. refl) (rw (same, kept) h))
  ]
]

-- A read mark keeps the rooms orderly, also where it raises.
pub mark_as_read-Orderly :
    (user room message : ℕ) (w : World)
    → RoomsAreOrderly w
    → RoomsAreOrderly (mark_as_read user room message w).1
unfolding mark_as_read Rooms.set_last_read_message
mark_as_read-Orderly user room message w h = elim (Option-cases (Rooms.get_member room user w)) [
  | inl n ↦ rw n h
  | inr (m, n) ↦ rw n (elim (Bool-cases (outside_room room (Messages.find_by_id message w))) [
    | inl out ↦ rw out h
    | inr there ↦
        rw there
          (elim (Bool-cases
            (any (at room user) w.room_members && not (any (λ m. m.id == message) w.messages))) [
              | inl broken ↦ rw broken h
              | inr fine ↦ rw fine (
                  update-IsOrderly (at room user) (read_at message) w.rooms w.room_members
                    (λ m. refl) (λ m. refl) (λ m. refl) h)
            ])
  ])
]
