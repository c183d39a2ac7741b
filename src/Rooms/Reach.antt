-- ===== src/Rooms/Reach.antt =====
-- The states that requests lead to, one after another, whether they succeed or raise: those on
-- rooms, the two on messages that write to the rooms' tables, and all others.
use Prim.Native.String.{String}
use backend_java_spring_boot.Prelude.{
  ℕ, Bool, ◌≡◌, ◌≤◌, true, false, List, [], count, arith, ◌==◌, ◌⊎◌, inl, inr, refl, Bool-cases,
}
use backend_java_spring_boot.Domain.{GivenId, Error, err, RoomRole}
use backend_java_spring_boot.World.{World}
use backend_java_spring_boot.Store.Rooms.{at}
use backend_java_spring_boot.Rooms.Authorizer.{is_owner_role}
use backend_java_spring_boot.Rooms.Membership.{add_member, remove_member, delete_room}
use backend_java_spring_boot.Rooms.Creation.{create_direct_room, create_group_room}
use backend_java_spring_boot.Rooms.Policy.{add_member-Decides}
use backend_java_spring_boot.Rooms.Orderly.{has_room, has_dm, in_room, owners_of, staff_of}
use backend_java_spring_boot.Rooms.Invariant.{
  RoomsAreOrderly, add_member-Orderly, remove_member-Orderly, delete_room-Orderly,
  direct_room_closed,
}
use backend_java_spring_boot.Rooms.MessagesInvariant.{send_message-Orderly, mark_as_read-Orderly}
use backend_java_spring_boot.Messages.UseCases.{SendInput, send_message, mark_as_read}
use backend_java_spring_boot.Rooms.CreationInvariant.{
  create_direct_room-Orderly, create_group_room-Orderly,
}

module _ (show : ℕ → String) where
  -- The use cases may do anything that `step_` lists, from a state without rooms; the addition of
  -- an owner does not get past `AddMemberSchema`. A registration, a login, an edit and all else that
  -- is no use case of these seven leaves the two tables of the rooms alone: `step_elsewhere`.
  pub data Reached : World → Type 0 where
    start : (w : World) → w.rooms ≡ [] → w.room_members ≡ [] → Reached w
    step_direct :
        {w : World}
        → Reached w
        → (now id requester : ℕ) (target : GivenId)
        → Reached (create_direct_room now id requester target w).1
    step_group :
        {w : World}
        → Reached w
        → (now id requester : ℕ) (name : String) (ids : List GivenId)
        → Reached (create_group_room show now id requester name ids w).1
    step_add :
        {w : World}
        → Reached w
        → (now requester room user : ℕ) (role : RoomRole) → is_owner_role role ≡ false
        → Reached (add_member now requester room user role w).1
    step_remove :
        {w : World}
        → Reached w
        → (requester room : ℕ) (target : GivenId)
        → Reached (remove_member requester room target w).1
    step_delete :
        {w : World} → Reached w → (requester room : ℕ) → Reached (delete_room requester room w).1
    step_send :
        {w : World}
        → Reached w
        → (stored : String → Bool) (now id : ℕ) (input : SendInput)
        → Reached (send_message stored now id input w).1
    step_read :
        {w : World}
        → Reached w
        → (user room message : ℕ) → Reached (mark_as_read user room message w).1
    step_elsewhere :
        {w : World}
        → Reached w
        → (v : World) → v.rooms ≡ w.rooms
        → v.room_members ≡ w.room_members
        → Reached v

  start-Orderly : (w : World) → w.rooms ≡ [] → w.room_members ≡ [] → RoomsAreOrderly w
  start-Orderly w r m =
      rw (r, m)
        (record {
          ids = λ r. omega arith;
          memberships = λ r u. omega arith;
          owners = λ r. omega arith;
          housed = λ r h. refl;
          direct = λ r h. refl;
        })

  pub Reached-Orderly : (w : World) → Reached w → RoomsAreOrderly w
  Reached-Orderly w (start _ r m) = start-Orderly w r m
  Reached-Orderly w (step_direct {w = v} p now id requester target) =
      create_direct_room-Orderly now id requester target v (Reached-Orderly v p)
  Reached-Orderly w (step_group {w = v} p now id requester name ids) =
      create_group_room-Orderly show now id requester name ids v (Reached-Orderly v p)
  Reached-Orderly w (step_add {w = v} p now requester room user role below) =
      add_member-Orderly now requester room user role v below (Reached-Orderly v p)
  Reached-Orderly w (step_remove {w = v} p requester room target) =
      remove_member-Orderly requester room target v (Reached-Orderly v p)
  Reached-Orderly w (step_delete {w = v} p requester room) =
      delete_room-Orderly requester room v (Reached-Orderly v p)
  Reached-Orderly w (step_send {w = v} p stored now id input) =
      send_message-Orderly stored now id input v (Reached-Orderly v p)
  Reached-Orderly w (step_read {w = v} p user room message) =
      mark_as_read-Orderly user room message v (Reached-Orderly v p)
  Reached-Orderly w (step_elsewhere {w = v} p _ r m) = rw (r, m) (Reached-Orderly v p)

  -- In every state that requests lead to, from one without rooms and whether they succeed or raise
  -- half-way (the use cases on rooms, sends, read marks, and any others, which leave the two tables of
  -- the rooms alone): room ids are unique, a user is in a room at most once, a room has at most
  -- one owner, a member's room exists, and a direct room has neither owner nor admin.
  pub rooms_stay_orderly :
      (w : World) (room user : ℕ)
      → Reached w
      → (count (λ x. x.id == room) w.rooms ≤ 1)
        × (count (at room user) w.room_members ≤ 1)
        × (owners_of room w.room_members ≤ 1)
        × ((has_room room w.rooms ≡ true) ⊎ (count (in_room room) w.room_members ≡ 0))
        × ((has_dm room w.rooms ≡ false) ⊎ (staff_of room w.room_members ≡ 0))
  rooms_stay_orderly w room user p =
      let k = Reached-Orderly w p in
      (
        k.ids room,
        k.memberships room user,
        k.owners room,
        elim (Bool-cases (has_room room w.rooms)) [ inl y ↦ inl y | inr n ↦ inr (k.housed room n) ],
        elim (Bool-cases (has_dm room w.rooms)) [ inl y ↦ inr (k.direct room y) | inr n ↦ inl n ],
      )

  -- Nobody is ever added to a direct room: in every state that requests lead to, from one without
  -- rooms (the use cases on rooms, sends, read marks, and any others, which leave the two tables of
  -- the rooms alone), an addition to one raises, and changes nothing.
  pub direct_room_stays_closed :
      (w : World) (now requester room user : ℕ) (role : RoomRole)
      → Reached w
      → has_dm room w.rooms ≡ true
      → (e : Error) × (add_member now requester room user role w ≡ (err e, w))
  direct_room_stays_closed w now requester room user role p is =
      rw (direct_room_closed requester room user w (Reached-Orderly w p) is) at
        (add_member-Decides now requester room user role w)
