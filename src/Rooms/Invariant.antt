-- ===== src/Rooms/Invariant.antt =====
-- Every use case of the rooms keeps their invariant, whether it succeeds or raises.
use backend_java_spring_boot.Prelude.{
  ℕ, ◌≤◌, ◌≡◌, refl, ◌⊎◌, inl, inr, true, false, not, ◌&&◌, some, List, count, any, find?, ◌==◌,
  arith, Bool-cases, Option-cases, count-of_find?, any-false→count, find?-some→any,
  find?-none→count, ltb, find?-test,
}
use backend_java_spring_boot.Domain.{GivenId, RoomMember, RoomRole, owner, admin, member}
use backend_java_spring_boot.World.{World}
use backend_java_spring_boot.Store.Rooms
use backend_java_spring_boot.Store.Rooms.{
  at, room_exists, room_allowed, member_refs, add_if_new, insert_dm_members, insert_room, create_dm,
  create_group, every, forget_read, key_eq,
}
use backend_java_spring_boot.Rooms.Authorizer.{is_member_role, is_owner_role}
use backend_java_spring_boot.Rooms.Membership.{joined, add_member, remove_member, delete_room}
use backend_java_spring_boot.Rooms.Policy.{
  rank, role_at_least, may_add, may_remove, add_member-Decides, remove_member-Decides,
}
use backend_java_spring_boot.Rooms.Deletion.{may_delete, delete_room-Decides}
use backend_java_spring_boot.Rooms.Orderly.{
  IsOrderly, has_room, has_dm, in_room, owners_of, staff_of, cons-IsOrderly, remove-IsOrderly,
  update-IsOrderly, delete-IsOrderly,
}

abbrev pub RoomsAreOrderly : World → Type 0
RoomsAreOrderly w = IsOrderly w.rooms w.room_members

staff_role : (r : RoomRole) → not (ltb (rank r) 1) ≡ true → is_member_role r ≡ false
staff_role owner h = refl
staff_role admin h = refl
staff_role member h = cc

staff_counts :
    (r u : ℕ) (m : RoomMember) (ms : List RoomMember)
    → find? (at r u) ms ≡ some m
    → role_at_least 1 (some m) ≡ true
    → 1 ≤ staff_of r ms
staff_counts r u m ms found high =
    count-of_find? (at r u) (λ x. in_room r x && not (is_member_role x.role)) ms m found
      (ground (arith, find?-test (at r u) ms m found, staff_role m.role high))

-- Nobody can be added to a direct room: it has no admin and no owner who might.
pub direct_room_closed :
    (requester room user : ℕ) (w : World)
    → RoomsAreOrderly w
    → has_dm room w.rooms ≡ true
    → may_add requester room user w ≡ false
direct_room_closed requester room user w h is =
    elim (Option-cases (Rooms.get_member room requester w)) [
      | inl q ↦ rw q (ground arith)
      | inr (m, q) ↦ elim (Bool-cases (role_at_least 1 (some m))) [
        | inr low ↦ rw q (ground (arith, low))
        | inl high ↦
            absurd
              (omega (arith, h.direct room is, staff_counts room requester m w.room_members q high))
      ]
    ]

-- What an allowed addition rests on.
added_room :
    (requester room user : ℕ) (w : World)
    → may_add requester room user w ≡ true
    → has_room room w.rooms ≡ true
added_room requester room user w allowed = elim (Option-cases (Rooms.find_by_id room w)) [
  | inl r ↦ let e = rw r at allowed in cc
  | inr (x, r) ↦ find?-some→any (λ y. y.id == room) w.rooms x r
]

added_user :
    (requester room user : ℕ) (w : World)
    → may_add requester room user w ≡ true
    → count (at room user) w.room_members ≡ 0
added_user requester room user w allowed = elim (Option-cases (Rooms.get_member room user w)) [
  | inl q ↦ find?-none→count (at room user) w.room_members q
  | inr (x, q) ↦ absurd (ground (arith, rw q at allowed))
]

pub stored-Orderly :
    (m : RoomMember) (w : World)
    → RoomsAreOrderly w
    → (is_owner_role m.role ≡ false) ⊎ (owners_of m.room_id w.room_members ≡ 0)
    → (is_member_role m.role ≡ true) ⊎ (has_dm m.room_id w.rooms ≡ false)
    → RoomsAreOrderly (Rooms.add_member m w).1
unfolding Rooms.add_member
stored-Orderly m w h own role =
    elim (Bool-cases (not (any (at m.room_id m.user_id) w.room_members) && member_refs m w)) [
      | inr no_row ↦ rw no_row h
      | inl row ↦ rw row (
          cons-IsOrderly m w.rooms w.room_members h (ground arith)
            (any-false→count (at m.room_id m.user_id) w.room_members (ground arith)) own role)
    ]

-- An addition in a role below the owner's, which is all that the requests can ask for, keeps
-- the rooms orderly.
pub add_member-Orderly :
    (now requester room user : ℕ) (role : RoomRole) (w : World)
    → is_owner_role role ≡ false
    → RoomsAreOrderly w
    → RoomsAreOrderly (add_member now requester room user role w).1
add_member-Orderly now requester room user role w below h =
    elim (Bool-cases (may_add requester room user w)) [
      | inr barred ↦
          let (e, same) = rw barred at (add_member-Decides now requester room user role w) in
          rw same h
      | inl allowed ↦
          let m = joined room user role now in
          let there = added_room requester room user w allowed in
          let open_room : has_dm room w.rooms ≡ false = elim (Bool-cases (has_dm room w.rooms)) [
            | inr e ↦ e
            | inl is ↦ let shut = direct_room_closed requester room user w h is in ground arith
          ] in
          rw (rw allowed at (add_member-Decides now requester room user role w)) (
            cons-IsOrderly m w.rooms w.room_members h there
              (added_user requester room user w allowed) (inl below) (inr open_room))
    ]

pub remove_member-Orderly :
    (requester room : ℕ) (target : GivenId) (w : World)
    → RoomsAreOrderly w
    → RoomsAreOrderly (remove_member requester room target w).1
remove_member-Orderly requester room target w h =
    elim (Bool-cases (may_remove requester room target w)) [
      | inr barred ↦
          let (e, same) = rw barred at (remove_member-Decides requester room target w) in rw same h
      | inl allowed ↦
          rw (rw allowed at (remove_member-Decides requester room target w))
            (remove-IsOrderly (at room target.id) w.rooms w.room_members h)
    ]

deleted-Orderly :
    (room : ℕ) (w : World) → RoomsAreOrderly w → RoomsAreOrderly (Rooms.delete_room room w).1
unfolding Rooms.delete_room
deleted-Orderly room w h =
    update-IsOrderly every (forget_read room w.messages) _ _ (λ m. refl) (λ m. refl) (λ m. refl)
      (delete-IsOrderly room w.rooms w.room_members h)

pub delete_room-Orderly :
    (requester room : ℕ) (w : World)
    → RoomsAreOrderly w
    → RoomsAreOrderly (delete_room requester room w).1
delete_room-Orderly requester room w h = elim (Bool-cases (may_delete requester room w)) [
  | inr barred ↦ let (e, same) = rw barred at (delete_room-Decides requester room w) in rw same h
  | inl allowed ↦
      rw (rw allowed at (delete_room-Decides requester room w)) (deleted-Orderly room w h)
]
