-- ===== src/Messages/Editing.antt =====
-- Who may edit a message, and what an edit does.
use Prim.Native.String.{String}
use text.Mathlib.Text.{◌==◌ as str_eq}
use backend_java_spring_boot.Prelude.{
  ℕ, ◌≡◌, refl, inl, inr, Bool, true, false, ◌&&◌, Option, none, some, ◌∷◌, find?, update, is_none,
  ◌==◌, arith, Option-cases, Bool-cases, find?-test, find?-update, if◌then◌else◌,
}
use backend_java_spring_boot.Domain.{
  Message, MessageDto, to_message_dto, ok, err, fault, Result, forbidden, not_found,
}
use backend_java_spring_boot.World.{World, message_edited, Decides}
use backend_java_spring_boot.Store.Messages
use backend_java_spring_boot.Store.Messages.{edited, erased}
use backend_java_spring_boot.Messages.UseCases.{edit_message}

-- The message is there, was not deleted, and is the requester's.
abbrev pub may_edit_in : ℕ → Option Message → Bool
may_edit_in requester none = false
may_edit_in requester (some m) = is_none m.deleted_at && (m.sender_id == requester)

-- What an allowed edit comes to: the same text changes nothing; another one is stored with the
-- time, and published in the room of the message.
abbrev pub edit_done : (now id : ℕ) → String → World → Option Message → Result MessageDto × World
edit_done now id body w none = (err fault, w)
edit_done now id body w (some m) = if str_eq m.body body then (ok (to_message_dto m), w) else (
  ok (to_message_dto (edited body now m)),
  record w {
    messages = update (λ x. x.id == id) (edited body now) w.messages;
    published = (m.room_id, message_edited (to_message_dto (edited body now m))) ∷ w.published;
  },
)

pub updated_found :
    (id : ℕ) (f : Message → Message) (m : Message) (w : World)
    → ((x : Message) → (f x).id ≡ x.id)
    → Messages.find_by_id id w ≡ some m
    → find? (λ x. x.id == id) (update (λ x. x.id == id) f w.messages) ≡ some (f m)
updated_found id f m w keeps found =
    let same : (m.id == id) ≡ true = find?-test (λ x. x.id == id) w.messages m found in
    ground (
      arith,
      find?-update (λ x. x.id == id) (λ x. x.id == id) f w.messages m (λ x. rw (keeps x)) found,
    )

-- An edit that the policy allows is done; any other raises, and changes nothing.
pub edit_message-Decides :
    (now requester id : ℕ) (body : String) (w : World)
    → Decides
        (may_edit_in requester (Messages.find_by_id id w))
        w
        (edit_done now id body w (Messages.find_by_id id w))
        (edit_message now requester id body w)
unfolding edit_message Messages.update_message
edit_message-Decides now requester id body w = elim (Option-cases (Messages.find_by_id id w)) [
  | inl n ↦ rw n (not_found "Message not found", refl)
  | inr (m, f) ↦ elim (Option-cases m.deleted_at) [
    | inr (t, d) ↦ rw f (rw d (not_found "Message not found", refl))
    | inl d ↦ elim (Bool-cases (m.sender_id == requester)) [
      | inr s ↦ rw f (rw d (rw s (forbidden "Cannot edit another user's message", refl)))
      | inl s ↦ elim (Bool-cases (str_eq m.body body)) [
        | inl same ↦ rw f (rw d (rw s (rw same refl)))
        | inr other ↦
            let stored = updated_found id (edited body now) m w (λ x. refl) f in
            rw f (rw d (rw s (rw other (rw stored (rw d)))))
      ]
    ]
  ]
]
