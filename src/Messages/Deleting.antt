-- ===== src/Messages/Deleting.antt =====
-- Who may delete and mark a message as read, and what is left of a deleted one.
use Prim.Native.String.{String}
use backend_java_spring_boot.Prelude.{
  ℕ, ◌≡◌, refl, inl, inr, Bool, true, false, not, ◌&&◌, ◌||◌, Option, none, some, ◌∷◌, update,
  is_some, is_none, ◌==◌, arith, Option-cases, Bool-cases, find?-some→any, ltb,
}
use backend_java_spring_boot.Domain.{
  Message, RoomMember, RoomRole, owner, admin, member, ok, err, fault, Result, forbidden, not_found,
}
use backend_java_spring_boot.World.{World, message_deleted, message_read, Decides}
use backend_java_spring_boot.Store.Rooms
use backend_java_spring_boot.Store.Rooms.{at, read_at}
use backend_java_spring_boot.Store.Messages
use backend_java_spring_boot.Store.Messages.{edited, erased}
use backend_java_spring_boot.Rooms.Authorizer.{is_member_role}
use backend_java_spring_boot.Rooms.Policy.{role_at_least, rank}
use backend_java_spring_boot.Messages.UseCases.{
  edit_message, lacks_authority, assert_may_moderate, delete_message, mark_as_read,
}
use backend_java_spring_boot.Messages.Editing.{updated_found}

-- The message is there, was not deleted, and is the requester's, or is in a room of which the
-- requester is an admin or the owner.
abbrev pub may_moderate_in : ℕ → World → Option Message → Bool
may_moderate_in requester w none = false
may_moderate_in requester w (some m) =
    is_none m.deleted_at
    && ((m.sender_id == requester) || role_at_least 1 (Rooms.get_member m.room_id requester w))

authority-rank : (r : RoomRole) → not (ltb (rank r) 1) ≡ not (is_member_role r)
authority-rank owner = refl
authority-rank admin = refl
authority-rank member = refl

lacks-role : (m : Option RoomMember) → lacks_authority m ≡ not (role_at_least 1 m)
lacks-role none = refl
lacks-role (some m) = ground (arith, authority-rank m.role)

-- The deletion of a message marks and empties its row, and is published in its room.
abbrev pub delete_done : (db_now id : ℕ) → World → Option Message → Result (Unit {0}) × World
delete_done db_now id w none = (err fault, w)
delete_done db_now id w (some m) = (
  ok tt,
  record w {
    messages = update (λ x. x.id == id) (erased db_now) w.messages;
    published = (m.room_id, message_deleted id m.room_id) ∷ w.published;
  },
)

moderate_lem :
    (requester : ℕ) (m : Message) (w : World)
    → Decides
        ((m.sender_id == requester) || role_at_least 1 (Rooms.get_member m.room_id requester w))
        w
        (ok tt, w)
        (assert_may_moderate requester m w)
unfolding assert_may_moderate
moderate_lem requester m w = elim (Bool-cases (m.sender_id == requester)) [
  | inl own ↦ rw own refl
  | inr other ↦ rw other (
      rw (lacks-role (Rooms.get_member m.room_id requester w))
        (elim (Bool-cases (role_at_least 1 (Rooms.get_member m.room_id requester w))) [
          | inl high ↦ rw high refl
          | inr low ↦ rw low (forbidden "Cannot delete another user's message", refl)
        ]))
]

-- A deletion that the policy allows is done; any other raises, and changes nothing.
pub delete_message-Decides :
    (db_now requester id : ℕ) (w : World)
    → Decides
        (may_moderate_in requester w (Messages.find_by_id id w))
        w
        (delete_done db_now id w (Messages.find_by_id id w))
        (delete_message db_now requester id w)
unfolding delete_message Messages.soft_delete
delete_message-Decides db_now requester id w = elim (Option-cases (Messages.find_by_id id w)) [
  | inl n ↦ rw n (not_found "Message not found", refl)
  | inr (m, f) ↦ elim (Option-cases m.deleted_at) [
    | inr (t, d) ↦ rw f (rw d (not_found "Message not found", refl))
    | inl d ↦
        let test =
          (m.sender_id == requester) || role_at_least 1 (Rooms.get_member m.room_id requester w) in
        elim (Bool-cases test) [
          | inr barred ↦
              let (e, raised) = rw barred at (moderate_lem requester m w) in
              rw f (rw d (rw barred (e, rw raised)))
          | inl allowed ↦
              let passed = rw allowed at (moderate_lem requester m w) in
              let stored = updated_found id (erased db_now) m w (λ x. refl) f in
              rw f (rw d (rw allowed (rw passed (rw stored))))
        ]
  ]
]

edit_of_deleted :
    (now requester id t : ℕ) (body : String) (m : Message) (w : World)
    → Messages.find_by_id id w ≡ some m
    → m.deleted_at ≡ some t
    → edit_message now requester id body w ≡ (err (not_found "Message not found"), w)
unfolding edit_message
edit_of_deleted now requester id t body m w f d = rw f (rw d)

delete_of_deleted :
    (now requester id t : ℕ) (m : Message) (w : World)
    → Messages.find_by_id id w ≡ some m
    → m.deleted_at ≡ some t
    → delete_message now requester id w ≡ (err (not_found "Message not found"), w)
unfolding delete_message
delete_of_deleted now requester id t m w f d = rw f (rw d)

-- Once a message was deleted its text and attachment are gone from the table, and whoever edits
-- or deletes it again is refused and changes nothing.
pub deleted_message_is_gone :
    (db_now later requester again id : ℕ) (body : String) (w : World)
    → may_moderate_in requester w (Messages.find_by_id id w) ≡ true
    → let w' = (delete_message db_now requester id w).1 in
      ((m : Message) × (Messages.find_by_id id w' ≡ some m)
        × (m.body ≡ "")
        × (m.attachment_key ≡ none)
        × (m.attachment_meta ≡ none))
      × (edit_message later again id body w' ≡ (err (not_found "Message not found"), w'))
      × (delete_message later again id w' ≡ (err (not_found "Message not found"), w'))
deleted_message_is_gone db_now later requester again id body w allowed =
    elim (Option-cases (Messages.find_by_id id w)) [
      | inl n ↦ absurd (ground (arith, rw n at allowed))
      | inr (m, f) ↦
          let done : delete_message db_now requester id w ≡ delete_done db_now id w (some m) =
            rw (allowed, f) at (delete_message-Decides db_now requester id w) in
          let stored = updated_found id (erased db_now) m w (λ x. refl) f in
          rw done (
            (erased db_now m, stored, refl, refl, refl),
            edit_of_deleted later again id db_now body (erased db_now m) _ stored refl,
            delete_of_deleted later again id db_now (erased db_now m) _ stored refl,
          )
    ]

-- A read mark needs a member and a message of that room.
abbrev pub may_mark : (user room : ℕ) → Option Message → World → Bool
may_mark user room none w = false
may_mark user room (some m) w = is_some (Rooms.get_member room user w) && (m.room_id == room)

-- A member's mark on a message of the room is stored and published; any other request raises,
-- and changes nothing.
pub mark_as_read-Decides :
    (user room id : ℕ) (w : World)
    → Decides
        (may_mark user room (Messages.find_by_id id w) w)
        w
        (
          ok tt,
          record w {
            room_members = update (at room user) (read_at id) w.room_members;
            published = (room, message_read room user id) ∷ w.published;
          },
        )
        (mark_as_read user room id w)
unfolding mark_as_read Rooms.set_last_read_message
mark_as_read-Decides user room id w = elim (Option-cases (Rooms.get_member room user w)) [
  | inl n ↦ elim (Option-cases (Messages.find_by_id id w)) [
    | inl f ↦ rw n (rw f (forbidden "Not a member of this room", refl))
    | inr (m, f) ↦ rw f (rw n (forbidden "Not a member of this room", refl))
  ]
  | inr (y, n) ↦ elim (Option-cases (Messages.find_by_id id w)) [
    | inl f ↦ rw n (rw f (not_found "Message not found", refl))
    | inr (m, f) ↦ elim (Bool-cases (m.room_id == room)) [
      | inr other ↦ rw f (rw n (rw f (rw other (not_found "Message not found", refl))))
      | inl same ↦
          let there = find?-some→any (λ x. x.id == id) w.messages m f in
          rw f (rw n (rw f (rw same (ground (arith, there)))))
    ]
  ]
]
