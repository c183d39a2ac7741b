-- ===== src/Rooms/Orderly.antt =====
-- The invariant of the rooms and their members, and the changes of the tables that keep it.
use backend_java_spring_boot.Prelude.{
  ℕ, ◌≤◌, ◌≡◌, refl, ◌⊎◌, inl, inr, Bool, true, false, not, ◌&&◌, List, [], ◌∷◌, count, any, remove,
  update, ◌==◌, arith, Bool-cases, count-filter_le, count_mono, count-remove_zero, count-update,
}
use backend_java_spring_boot.Domain.{Room, RoomKind, dm, group, RoomMember}
use backend_java_spring_boot.Store.Rooms.{at}
use backend_java_spring_boot.Rooms.Authorizer.{is_member_role, is_owner_role}

abbrev pub is_dm : RoomKind → Bool
is_dm dm = true
is_dm group = false

abbrev pub has_room : ℕ → List Room → Bool
has_room r = any (λ x. x.id == r)

abbrev pub has_dm : ℕ → List Room → Bool
has_dm r = any (λ x. (x.id == r) && is_dm x.kind)

abbrev pub in_room : ℕ → RoomMember → Bool
in_room r m = m.room_id == r

abbrev pub owners_of : ℕ → List RoomMember → ℕ
owners_of r = count (λ m. in_room r m && is_owner_role m.role)

abbrev pub staff_of : ℕ → List RoomMember → ℕ
staff_of r = count (λ m. in_room r m && not (is_member_role m.role))

-- Room ids and memberships are unique, a room has at most one owner, members are in rooms that
-- exist, and a direct room has neither owner nor admin.
pub record IsOrderly (rooms : List Room) (ms : List RoomMember) : Type 0 where
  pub ids : (r : ℕ) → count (λ x. x.id == r) rooms ≤ 1
  pub memberships : (r u : ℕ) → count (at r u) ms ≤ 1
  pub owners : (r : ℕ) → owners_of r ms ≤ 1
  pub housed : (r : ℕ) → has_room r rooms ≡ false → count (in_room r) ms ≡ 0
  pub direct : (r : ℕ) → has_dm r rooms ≡ true → staff_of r ms ≡ 0

absent→count :
    (r : ℕ) (rooms : List Room) → has_room r rooms ≡ false → count (λ x. x.id == r) rooms ≡ 0
absent→count r [] h = refl
absent→count r (x ∷ xs) h = ground (arith, absent→count r xs)

-- A new row for a member: the room is there, the membership is not, and the role fits.
pub cons-IsOrderly :
    (m : RoomMember) (rooms : List Room) (ms : List RoomMember)
    → IsOrderly rooms ms
    → has_room m.room_id rooms ≡ true
    → count (at m.room_id m.user_id) ms ≡ 0
    → (is_owner_role m.role ≡ false) ⊎ (owners_of m.room_id ms ≡ 0)
    → (is_member_role m.role ≡ true) ⊎ (has_dm m.room_id rooms ≡ false)
    → IsOrderly rooms (m ∷ ms)
cons-IsOrderly m rooms ms h there clear own role = record {
  ids = h.ids;
  memberships = λ r u. elim (Bool-cases (at r u m)) [
    | inl e ↦
        let er : m.room_id ≡ r = ground arith in
        let eu : m.user_id ≡ u = ground arith in ground (arith, rw (er, eu) at clear)
    | inr e ↦ ground (arith, h.memberships r u)
  ];
  owners = λ r. elim (Bool-cases (in_room r m)) [
    | inl e ↦ let er : m.room_id ≡ r = ground arith in ground (arith, h.owners r, rw er at own)
    | inr e ↦ ground (arith, h.owners r)
  ];
  housed = λ r gone. elim (Bool-cases (in_room r m)) [
    | inl e ↦ let er : m.room_id ≡ r = ground arith in absurd (ground (arith, rw er at there))
    | inr e ↦ ground (arith, h.housed r gone)
  ];
  direct = λ r is. elim (Bool-cases (in_room r m)) [
    | inl e ↦ let er : m.room_id ≡ r = ground arith in ground (arith, h.direct r is, rw er at role)
    | inr e ↦ ground (arith, h.direct r is)
  ];
}

-- A new room, whose id no room has.
pub room-IsOrderly :
    (x : Room) (rooms : List Room) (ms : List RoomMember)
    → IsOrderly rooms ms
    → has_room x.id rooms ≡ false
    → IsOrderly (x ∷ rooms) ms
room-IsOrderly x rooms ms h new = record {
  ids = λ r. elim (Bool-cases (x.id == r)) [
    | inl e ↦
        let er : x.id ≡ r = ground arith in ground (arith, absent→count r rooms (rw er at new))
    | inr e ↦ ground (arith, h.ids r)
  ];
  memberships = h.memberships;
  owners = h.owners;
  housed = λ r gone. h.housed r (ground arith);
  direct = λ r is. elim (Bool-cases (x.id == r)) [
    | inl e ↦
        let er : x.id ≡ r = ground arith in
        ground (
          arith,
          h.housed r (rw er at new),
          count_mono (λ m. in_room r m && not (is_member_role m.role)) (in_room r) ms
              (λ m k. ground arith),
        )
    | inr e ↦ h.direct r (ground arith)
  ];
}

-- Members who leave.
pub remove-IsOrderly :
    (p : RoomMember → Bool) (rooms : List Room) (ms : List RoomMember)
    → IsOrderly rooms ms
    → IsOrderly rooms (remove p ms)
remove-IsOrderly p rooms ms h = record {
  ids = h.ids;
  memberships =
      λ r u. ground (arith, h.memberships r u, count-filter_le (at r u) (λ m. not (p m)) ms);
  owners = λ r. ground (
    arith,
    h.owners r,
    count-filter_le (λ m. in_room r m && is_owner_role m.role) (λ m. not (p m)) ms,
  );
  housed =
      λ r gone. ground (arith, h.housed r gone, count-filter_le (in_room r) (λ m. not (p m)) ms);
  direct = λ r is. ground (
    arith,
    h.direct r is,
    count-filter_le (λ m. in_room r m && not (is_member_role m.role)) (λ m. not (p m)) ms,
  );
}

-- A change of the members' rows that keeps who is where, and in which role.
pub update-IsOrderly :
    (p : RoomMember → Bool) (f : RoomMember → RoomMember) (rooms : List Room) (ms : List RoomMember)
    → ((m : RoomMember) → (f m).room_id ≡ m.room_id)
    → ((m : RoomMember) → (f m).user_id ≡ m.user_id)
    → ((m : RoomMember) → (f m).role ≡ m.role)
    → IsOrderly rooms ms
    → IsOrderly rooms (update p f ms)
update-IsOrderly p f rooms ms i k l h = record {
  ids = h.ids;
  memberships = λ r u. rw (count-update (at r u) p f ms (λ m. rw (i m, k m))) (h.memberships r u);
  owners = λ r.
      rw (count-update (λ m. in_room r m && is_owner_role m.role) p f ms (λ m. rw (i m, l m)))
        (h.owners r);
  housed = λ r gone. rw (count-update (in_room r) p f ms (λ m. rw (i m))) (h.housed r gone);
  direct = λ r is.
      rw
        (count-update (λ m. in_room r m && not (is_member_role m.role)) p f ms (λ m. rw (i m, l m)))
        (h.direct r is);
}

has_room-update :
    (p : Room → Bool) (f : Room → Room) (r : ℕ) (rooms : List Room)
    → ((x : Room) → (f x).id ≡ x.id)
    → has_room r (update p f rooms) ≡ has_room r rooms
has_room-update p f r [] i = refl
has_room-update p f r (x ∷ xs) i = ground (arith, has_room-update p f r xs i, i x)

has_dm-update :
    (p : Room → Bool) (f : Room → Room) (r : ℕ) (rooms : List Room)
    → ((x : Room) → (f x).id ≡ x.id)
    → ((x : Room) → (f x).kind ≡ x.kind)
    → has_dm r (update p f rooms) ≡ has_dm r rooms
has_dm-update p f r [] i k = refl
has_dm-update p f r (x ∷ xs) i k = elim (Bool-cases (p x)) [
  | inl e ↦ rw e (rw (i x, k x) (rw (has_dm-update p f r xs i k) refl))
  | inr e ↦ rw e (rw (has_dm-update p f r xs i k) refl)
]

-- A change of the rooms' rows that keeps their ids and kinds.
pub rooms-IsOrderly :
    (p : Room → Bool) (f : Room → Room) (rooms : List Room) (ms : List RoomMember)
    → ((x : Room) → (f x).id ≡ x.id)
    → ((x : Room) → (f x).kind ≡ x.kind)
    → IsOrderly rooms ms
    → IsOrderly (update p f rooms) ms
rooms-IsOrderly p f rooms ms i k h = record {
  ids = λ r. rw (count-update (λ x. x.id == r) p f rooms (λ x. rw (i x))) (h.ids r);
  memberships = h.memberships;
  owners = h.owners;
  housed = λ r gone. h.housed r (rw (has_room-update p f r rooms i) at gone);
  direct = λ r is. h.direct r (rw (has_dm-update p f r rooms i k) at is);
}

has_room-remove :
    (d r : ℕ) (rooms : List Room)
    → has_room r (remove (λ x. x.id == d) rooms) ≡ (not (r == d) && has_room r rooms)
has_room-remove d r [] = ground arith
has_room-remove d r (x ∷ xs) = ground (arith, has_room-remove d r xs)

has_dm-remove :
    (d r : ℕ) (rooms : List Room)
    → has_dm r (remove (λ x. x.id == d) rooms) ≡ true
    → has_dm r rooms ≡ true
has_dm-remove d r [] h = h
has_dm-remove d r (x ∷ xs) h = ground (arith, has_dm-remove d r xs)

-- A room that is deleted with its members.
pub delete-IsOrderly :
    (d : ℕ) (rooms : List Room) (ms : List RoomMember)
    → IsOrderly rooms ms
    → IsOrderly (remove (λ x. x.id == d) rooms) (remove (in_room d) ms)
delete-IsOrderly d rooms ms h =
    let left = remove-IsOrderly (in_room d) rooms ms h in
    record {
      ids = λ r.
          ground (arith, h.ids r, count-filter_le (λ x. x.id == r) (λ x. not (x.id == d)) rooms);
      memberships = left.memberships;
      owners = left.owners;
      housed = λ r gone. elim (Bool-cases (r == d)) [
        | inl e ↦
            let er : r ≡ d = ground arith in
            rw er (count-remove_zero (in_room d) (in_room d) ms (λ m k. k))
        | inr e ↦ left.housed r (ground (arith, has_room-remove d r rooms))
      ];
      direct = λ r is. left.direct r (has_dm-remove d r rooms is);
    }
