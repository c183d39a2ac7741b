-- ===== src/Rooms/Deletion.antt =====
-- Who may delete a room, and what is left of it.
use backend_java_spring_boot.Prelude.{
  ℕ, ◌≡◌, refl, ◌∙◌, inl, inr, Bool, true, false, not, Option, none, some, is_some, count, remove,
  ltb, ◌==◌, Option-cases, Bool-cases, find?-remove, count-remove_zero, count-update,
}
use backend_java_spring_boot.Domain.{
  Room, RoomKind, dm, group, RoomMember, RoomRole, owner, admin, member, not_found, forbidden,
}
use backend_java_spring_boot.World.{World, Decides, ◌>>◌}
use backend_java_spring_boot.Store.Rooms
use backend_java_spring_boot.Store.Rooms.{every, forget_read}
use backend_java_spring_boot.Rooms.Authorizer.{is_owner_role}
use backend_java_spring_boot.Rooms.Membership.{delete_room, assert_may_delete}
use backend_java_spring_boot.Rooms.Policy.{role_at_least, rank}

-- In a group the requester is an owner; in a direct room, anybody in it.
abbrev pub may_delete_kind : RoomKind → Option RoomMember → Bool
may_delete_kind group m = role_at_least 2 m
may_delete_kind dm m = is_some m

abbrev pub may_delete_in : Option Room → Option RoomMember → Bool
may_delete_in none m = false
may_delete_in (some r) m = may_delete_kind r.kind m

abbrev pub may_delete : (requester room : ℕ) → World → Bool
may_delete requester room w =
    may_delete_in (Rooms.find_by_id room w) (Rooms.get_member room requester w)

owner-cases : (r : RoomRole) → ltb (rank r) 2 ≡ not (is_owner_role r)
owner-cases owner = refl
owner-cases admin = refl
owner-cases member = refl

allowed_kind :
    (kind : RoomKind) (requester room : ℕ) (w : World)
    → Decides
        (may_delete_kind kind (Rooms.get_member room requester w))
        w
        (Rooms.delete_room room w)
        ((assert_may_delete kind room requester >> Rooms.delete_room room) w)
unfolding assert_may_delete
allowed_kind group requester room w = elim (Option-cases (Rooms.get_member room requester w)) [
  | inl q ↦ rw q (forbidden "Not a member of this room", refl)
  | inr (m, q) ↦ rw q (elim (Bool-cases (is_owner_role m.role)) [
    | inl o ↦ rw (owner-cases m.role) (rw o refl)
    | inr o ↦ rw (owner-cases m.role) (rw o (forbidden "Owner required", refl))
  ])
]
allowed_kind dm requester room w = elim (Option-cases (Rooms.get_member room requester w)) [
  | inl q ↦ rw q (forbidden "Not a member of this room", refl)
  | inr (m, q) ↦ rw q refl
]

deleted :
    (room : ℕ) (w : World)
    → let w' = (Rooms.delete_room room w).1 in
      (Rooms.find_by_id room w' ≡ none)
      × (count (λ m. m.room_id == room) w'.room_members ≡ 0)
      × (count (λ x. x.room_id == room) w'.messages ≡ 0)
unfolding Rooms.delete_room
deleted room w =
    let here : RoomMember → Bool = λ m. m.room_id == room in
    (
      find?-remove (λ r. r.id == room) w.rooms,
      count-update here every (forget_read room w.messages) (remove here w.room_members) (λ m. refl)
          ∙ count-remove_zero here here w.room_members (λ m e. e),
      count-remove_zero (λ x. x.room_id == room) (λ x. x.room_id == room) w.messages (λ x e. e),
    )

-- A deletion that the policy allows is carried out; any other raises, and changes nothing.
pub delete_room-Decides :
    (requester room : ℕ) (w : World)
    → Decides
        (may_delete requester room w)
        w
        (Rooms.delete_room room w)
        (delete_room requester room w)
unfolding delete_room
delete_room-Decides requester room w = elim (Option-cases (Rooms.find_by_id room w)) [
  | inl r ↦ rw r (not_found "Room not found", refl)
  | inr (x, r) ↦ rw r (allowed_kind x.kind requester room w)
]

-- After an allowed deletion neither the room nor any member or message of it is left.
pub delete_room_leaves_nothing :
    (requester room : ℕ) (w : World)
    → may_delete requester room w ≡ true
    → let w' = (delete_room requester room w).1 in
      (Rooms.find_by_id room w' ≡ none)
      × (count (λ m. m.room_id == room) w'.room_members ≡ 0)
      × (count (λ x. x.room_id == room) w'.messages ≡ 0)
delete_room_leaves_nothing requester room w allowed =
    let done : delete_room requester room w ≡ Rooms.delete_room room w =
      rw allowed at (delete_room-Decides requester room w) in
    rw done (deleted room w)
