-- ===== src/Rooms/CreationInvariant.antt =====
-- The creation of rooms keeps their invariant, whether it succeeds or raises.
use Prim.Native.String.{String}
use backend_java_spring_boot.Prelude.{
  ℕ, ◌≡◌, refl, inl, inr, true, false, not, ◌&&◌, Option, none, some, List, [], ◌∷◌, any, arith,
  Bool-cases, Option-cases, count_mono, any-false→count,
}
use backend_java_spring_boot.Domain.{GivenId, Room, RoomMember, owner, member}
use backend_java_spring_boot.World.{World, row_or_fault, continue-keeps}
use backend_java_spring_boot.Store.Users
use backend_java_spring_boot.Store.Rooms
use backend_java_spring_boot.Store.Rooms.{
  at, room_exists, room_allowed, member_refs, add_if_new, insert_dm_members, insert_room, create_dm,
  create_group, every, forget_read, key_eq,
}
use backend_java_spring_boot.Rooms.Authorizer.{is_owner_role}
use backend_java_spring_boot.Rooms.Membership.{joined}
use backend_java_spring_boot.Rooms.Creation.{
  direct_room, create_direct_room, group_room, other_members, join_all, check_users,
  create_group_room,
}
use backend_java_spring_boot.Rooms.Orderly.{
  IsOrderly, has_room, has_dm, in_room, owners_of, cons-IsOrderly, room-IsOrderly,
}
use backend_java_spring_boot.Rooms.Invariant.{RoomsAreOrderly, stored-Orderly}

-- A member who is there already, or joins in the role of a member.
add_if_new-Orderly :
    (m : RoomMember) (rooms : List Room) (ms : List RoomMember)
    → IsOrderly rooms ms
    → has_room m.room_id rooms ≡ true
    → m.role ≡ member
    → IsOrderly rooms (add_if_new m ms)
add_if_new-Orderly m rooms ms h there plain = elim (Bool-cases (any (at m.room_id m.user_id) ms)) [
  | inl old ↦ rw old h
  | inr new ↦ rw new (
      cons-IsOrderly m rooms ms h there (any-false→count (at m.room_id m.user_id) ms new)
        (inl (rw plain)) (inl (rw plain)))
]

insert_dm_members-Orderly :
    (a b : RoomMember) (w : World)
    → RoomsAreOrderly w
    → a.role ≡ member
    → b.role ≡ member
    → RoomsAreOrderly (insert_dm_members a b w).1
unfolding insert_dm_members
insert_dm_members-Orderly a b w h ra rb = elim (Bool-cases (member_refs a w && member_refs b w)) [
  | inr no_row ↦ rw no_row h
  | inl row ↦ rw row (
      add_if_new-Orderly b w.rooms _
        (add_if_new-Orderly a w.rooms w.room_members h (ground arith) ra) (ground arith) rb)
]

new_room-Orderly :
    (x : Room) (w : World)
    → RoomsAreOrderly w
    → room_allowed x w ≡ true
    → RoomsAreOrderly (insert_room x w)
new_room-Orderly x w h allowed = room-IsOrderly x w.rooms w.room_members h (ground arith)

row_or_fault-world {κ} :
    {A : Type 0} (P : World → Type κ) (o : Option A) (w : World) → P w → P (row_or_fault o w).1
row_or_fault-world P none w h = h
row_or_fault-world P (some a) w h = h

create_dm-Orderly :
    (x : Room) (a b : RoomMember) (w : World)
    → RoomsAreOrderly w
    → a.role ≡ member
    → b.role ≡ member
    → RoomsAreOrderly (create_dm x a b w).1
unfolding create_dm
create_dm-Orderly x a b w h ra rb =
    elim (Bool-cases (any (λ r. key_eq r.dm_key x.dm_key) w.rooms)) [
      | inl old ↦ rw old (row_or_fault-world RoomsAreOrderly (Rooms.find_by_key x.dm_key w) w h)
      | inr new ↦ rw new (elim (Bool-cases (room_allowed x w)) [
        | inr no_row ↦ rw no_row h
        | inl row ↦ rw row (
            continue-keeps RoomsAreOrderly (insert_dm_members a b (insert_room x w)) _
              (insert_dm_members-Orderly a b (insert_room x w) (new_room-Orderly x w h row) ra rb)
              (λ u v k. k))
      ])
    ]

-- Opening a direct room keeps the rooms orderly.
pub create_direct_room-Orderly :
    (now id requester : ℕ) (target : GivenId) (w : World)
    → RoomsAreOrderly w
    → RoomsAreOrderly (create_direct_room now id requester target w).1
unfolding create_direct_room
create_direct_room-Orderly now id requester target w h =
    elim (Option-cases (Users.find_by_id target.id w)) [
      | inl u ↦ rw u h
      | inr (v, u) ↦ rw u (elim (Option-cases (Rooms.find_dm_between requester target.text w)) [
        | inr (x, e) ↦ rw e h
        | inl e ↦ rw e (
            continue-keeps RoomsAreOrderly
              (create_dm (direct_room now id requester target) (joined id requester member now)
                (joined id target.id member now) w)
              _ (create_dm-Orderly _ _ _ w h refl refl) (λ x v k. k))
      ])
    ]

empty_room :
    (r : ℕ) (rooms : List Room) (ms : List RoomMember)
    → IsOrderly rooms ms
    → has_room r rooms ≡ false
    → owners_of r ms ≡ 0
empty_room r rooms ms h gone = ground (
  arith,
  h.housed r gone,
  count_mono (λ m. in_room r m && is_owner_role m.role) (in_room r) ms (λ m k. ground arith),
)

no_dm : (r : ℕ) (rooms : List Room) → has_room r rooms ≡ false → has_dm r rooms ≡ false
no_dm r [] h = refl
no_dm r (x ∷ xs) h = ground (arith, no_dm r xs)

create_group-Orderly :
    (now id requester : ℕ) (name : String) (w : World)
    → RoomsAreOrderly w
    → RoomsAreOrderly
        (create_group (group_room now id requester name) (joined id requester owner now) w).1
unfolding create_group
create_group-Orderly now id requester name w h =
    let x = group_room now id requester name in
    elim (Bool-cases (room_allowed x w && not (any (λ r. key_eq r.dm_key none) w.rooms))) [
      | inr no_row ↦ rw no_row h
      | inl row ↦
          let new : has_room id w.rooms ≡ false = ground arith in
          let allowed : room_allowed x w ≡ true = ground arith in
          rw row (
            continue-keeps RoomsAreOrderly
              (Rooms.add_member (joined id requester owner now) (insert_room x w)) _
              (stored-Orderly (joined id requester owner now) (insert_room x w)
                (new_room-Orderly x w h allowed) (inr (empty_room id w.rooms w.room_members h new))
                (inr (ground (arith, no_dm id w.rooms new))))
              (λ u v k. k))
    ]

join_all-Orderly :
    (now room : ℕ) (ids : List GivenId) (w : World)
    → RoomsAreOrderly w
    → RoomsAreOrderly (join_all now room ids w).1
unfolding join_all
join_all-Orderly now room [] w h = h
join_all-Orderly now room (id ∷ ids) w h =
    continue-keeps RoomsAreOrderly (Rooms.add_member (joined room id.id member now) w) _
      (stored-Orderly (joined room id.id member now) w h (inl refl) (inl refl))
      (λ m v k. join_all-Orderly now room ids v k)

module _ (show : ℕ → String) where
  pub check_users-world : (ids : List GivenId) (w : World) → (check_users show ids w).1 ≡ w
  unfolding check_users
  check_users-world [] w = refl
  check_users-world (id ∷ ids) w = elim (Option-cases (Users.find_by_id id.id w)) [
    | inl u ↦ rw u
    | inr (v, u) ↦ rw u (check_users-world ids w)
  ]

  -- Opening a group keeps the rooms orderly, also where it raises half-way.
  pub create_group_room-Orderly :
      (now id requester : ℕ) (name : String) (ids : List GivenId) (w : World)
      → RoomsAreOrderly w
      → RoomsAreOrderly (create_group_room show now id requester name ids w).1
  unfolding create_group_room
  create_group_room-Orderly now id requester name ids w h =
      continue-keeps RoomsAreOrderly (check_users show (other_members requester ids) w) _
        (rw (check_users-world (other_members requester ids) w) h)
        (λ u v k.
          continue-keeps RoomsAreOrderly
            (create_group (group_room now id requester name) (joined id requester owner now) v) _
            (create_group-Orderly now id requester name v k)
            (λ x v' k'.
              continue-keeps RoomsAreOrderly (join_all now id (other_members requester ids) v') _
                (join_all-Orderly now id (other_members requester ids) v' k') (λ u' v'' k''. k'')))
