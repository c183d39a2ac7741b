-- ===== src/Rooms/Shared.antt =====
-- One direct room for two users, whoever of them asks for it and however often.
use backend_java_spring_boot.Prelude.{
  ℕ, ⊤, ◌&&◌, ◌≡◌, refl, true, Bool-cases, Option-cases, inl, inr, Option, none, some, arith,
  find?-some→any, find?-none→any,
}
use backend_java_spring_boot.Domain.{
  GivenId, printed, User, Room, RoomMember, RoomDto, member, to_room_dto, Result, ok, err,
}
use backend_java_spring_boot.World.{World, Action, continue_with}
use backend_java_spring_boot.Store.Users
use backend_java_spring_boot.Store.Rooms.{
  sorted_pair, key_eq, find_dm_between, find_by_key, room_allowed, member_refs, insert_room,
  insert_dm_members, create_dm,
}
use backend_java_spring_boot.Rooms.Membership.{joined}
use backend_java_spring_boot.Rooms.Creation.{direct_room, direct_room_or_new, create_direct_room}

sorted_pair_comm : (a b : ℕ) → sorted_pair a b ≡ sorted_pair b a
sorted_pair_comm a b = ground arith

key-eq_refl : (k : ℕ × ℕ) → key_eq (some k) (some k) ≡ true
key-eq_refl (a, b) = ground arith

-- Whoever looked, the row with the key is what the insert comes back with.
create_dm-found :
    (room r : Room) (a b : RoomMember) (w : World)
    → find_by_key room.dm_key w ≡ some r
    → create_dm room a b w ≡ (ok r, w)
unfolding create_dm
create_dm-found room r a b w h =
    rw (find?-some→any (λ x. key_eq x.dm_key room.dm_key) w.rooms r h) (rw h refl)

-- What holds of the end of a call that succeeds.
abbrev Ends : {A : Type 0} → (A → World → Type 0) → Result A × World → Type 0
Ends Q (ok a, w) = Q a w
Ends Q (err e, w) = ⊤

then-Ends :
    {A B : Type 0} (P : A → World → Type 0) (Q : B → World → Type 0) (r : Result A × World)
    (f : A → Action B)
    → Ends P r
    → ((a : A) (w : World) → P a w → Ends Q (f a w))
    → Ends Q (continue_with r f)
then-Ends P Q (ok a, w) f h k = k a w h
then-Ends P Q (err e, w) f h k = tt

-- The room stands under its key, and the users are those of a state before.
abbrev Stands : Option (ℕ × ℕ) → World → Room → World → Type 0
Stands key w r w' = (find_by_key key w' ≡ some r) × (w'.users ≡ w.users)

-- A direct room that is new stands in the table afterwards.
create_dm-Ends :
    (room : Room) (a b : RoomMember) (k : ℕ × ℕ) (w : World)
    → room.dm_key ≡ some k
    → find_by_key room.dm_key w ≡ none
    → Ends (Stands room.dm_key w) (create_dm room a b w)
unfolding create_dm insert_dm_members
create_dm-Ends room a b k w key absent =
    let new = find?-none→any (λ x. key_eq x.dm_key room.dm_key) w.rooms absent in
    let own : key_eq room.dm_key room.dm_key ≡ true = rw key (key-eq_refl k) in
    let there = insert_room room w in
    rw new (elim (Bool-cases (room_allowed room w)) [
      | inr forbidden ↦ rw forbidden tt
      | inl allowed ↦ rw allowed (elim (Bool-cases (member_refs a there && member_refs b there)) [
        | inr broken ↦ rw broken tt
        | inl fine ↦ rw fine (rw own refl, refl)
      ])
    ])

-- What a call that succeeds leaves
created-Ends :
    (now id requester : ℕ) (target : GivenId) (w : World)
    → Ends
        (λ dto w'.
          (r : Room) × Stands (some (sorted_pair requester target.text)) w r w'
          × (dto ≡ to_room_dto r))
        (create_direct_room now id requester target w)
unfolding create_direct_room direct_room_or_new
created-Ends now id requester target w = elim (Option-cases (Users.find_by_id target.id w)) [
  | inl unknown ↦ rw unknown tt
  | inr (user, known) ↦ rw known (elim (Option-cases (find_dm_between requester target.text w)) [
    | inr (r, found) ↦ rw found (r, (found, refl), refl)
    | inl absent ↦ rw absent (
        then-Ends (Stands (some (sorted_pair requester target.text)) w) _
          (create_dm (direct_room now id requester target) (joined id requester member now)
            (joined id target.id member now) w)
          _
          (create_dm-Ends (direct_room now id requester target) (joined id requester member now)
            (joined id target.id member now) (sorted_pair requester target.text) w refl absent)
          λ r w' stands. (r, stands, refl))
  ])
]

-- A room that stands for two known users is what both of them get.
shared-found :
    (now id requester : ℕ) (target : GivenId) (w : World) (u : User) (r : Room)
    → Users.find_by_id target.id w ≡ some u
    → find_dm_between requester target.text w ≡ some r
    → create_direct_room now id requester target w ≡ (ok (to_room_dto r), w)
unfolding create_direct_room direct_room_or_new
shared-found now id requester target w u r known found = rw known (rw found refl)

shared-raced :
    (now id requester : ℕ) (target : GivenId) (w : World) (r : Room)
    → find_dm_between requester target.text w ≡ some r
    → direct_room_or_new now id requester target none w ≡ (ok (to_room_dto r), w)
unfolding direct_room_or_new
shared-raced now id requester target w r found =
    rw
      (create_dm-found (direct_room now id requester target) r (joined id requester member now)
        (joined id target.id member now) w found)
      refl

-- Once a direct room of two known users was made or found, each of the two who asks for it gets
-- that room and changes nothing, at any time and with any id drawn; and so does the other one if
-- the room was not there yet when that call looked for it. All three requests spell the other
-- user's id as the database prints it.
pub direct_room_shared :
    (now id a b : ℕ) (w w' : World) (dto : RoomDto) (u v : User)
    → Users.find_by_id a w ≡ some u
    → Users.find_by_id b w ≡ some v
    → create_direct_room now id a (printed b) w ≡ (ok dto, w')
    → (later other : ℕ)
    → (create_direct_room later other a (printed b) w' ≡ (ok dto, w'))
      × (create_direct_room later other b (printed a) w' ≡ (ok dto, w'))
      × (direct_room_or_new later other b (printed a) none w' ≡ (ok dto, w'))
direct_room_shared now id a b w w' dto u v known_a known_b done later other =
    let (r, (found, same), e) = rw done at (created-Ends now id a (printed b) w) in
    let swapped : find_dm_between b a w' ≡ some r = rw (sorted_pair_comm b a) found in
    let a_known : Users.find_by_id a w' ≡ some u = rw same known_a in
    let b_known : Users.find_by_id b w' ≡ some v = rw same known_b in
    rw e (
      shared-found later other a (printed b) w' v r b_known found,
      shared-found later other b (printed a) w' u r a_known swapped,
      shared-raced later other b (printed a) w' r swapped,
    )
