-- ===== src/Rooms/Policy.antt =====
-- Who may add, remove and delete, as tests on the tables that stand beside the code's own
-- sequence of checks.
use backend_java_spring_boot.Prelude.{
  ℕ, ◌≡◌, refl, ◌⊎◌, inl, inr, Bool, false, not, ◌&&◌, ◌||◌, Option, none, some, is_some, is_none,
  find?-none→any, find?-some→any, remove, ◌∷◌, ltb, ◌==◌, Option-cases, Bool-cases,
}
use backend_java_spring_boot.Domain.{
  GivenId, ok, RoomMember, RoomRole, owner, admin, member, to_room_member_dto, not_found, forbidden,
  conflict,
}
use backend_java_spring_boot.World.{World, Decides}
use backend_java_spring_boot.Store.Users
use backend_java_spring_boot.Store.Rooms
use backend_java_spring_boot.Store.Rooms.{at}
use backend_java_spring_boot.Rooms.Authorizer.{is_member_role}
use backend_java_spring_boot.Rooms.Membership.{
  joined, add_member, remove_member, remove_other, remove_by_roles,
}

-- The roles in order: a member below an admin below an owner.
abbrev pub rank : RoomRole → ℕ
rank member = 0
rank admin = 1
rank owner = 2

abbrev pub role_at_least : ℕ → Option RoomMember → Bool
role_at_least k none = false
role_at_least k (some m) = not (ltb (rank m.role) k)

abbrev pub outranks : Option RoomMember → Option RoomMember → Bool
outranks (some a) (some b) = ltb (rank b.role) (rank a.role)
outranks none b = false
outranks (some a) none = false

-- The room exists, the requester is one of its admins or owners, the user exists and is not in
-- the room.
abbrev pub may_add : (requester room user : ℕ) → World → Bool
may_add requester room user w =
    is_some (Rooms.find_by_id room w)
    && (role_at_least 1 (Rooms.get_member room requester w)
        && (is_some (Users.find_by_id user w) && is_none (Rooms.get_member room user w)))

-- The room exists, the target is in it, and is the requester, by the spelling of the ids, or is
-- outranked by the requester.
abbrev pub may_remove : (requester room : ℕ) → GivenId → World → Bool
may_remove requester room target w =
    is_some (Rooms.find_by_id room w)
    && (is_some (Rooms.get_member room target.id w)
        && ((requester == target.text)
            || outranks (Rooms.get_member room requester w) (Rooms.get_member room target.id w)))

-- A member, or a role that passes both the code's test and the policy's.
role-cases : (r : RoomRole) → (r ≡ member) ⊎ ((is_member_role r ≡ false) × (ltb (rank r) 1 ≡ false))
role-cases owner = inr (refl, refl)
role-cases admin = inr (refl, refl)
role-cases member = inl refl

-- An addition that the policy allows puts the new member's row into the table; any other
-- raises, and changes nothing.
pub add_member-Decides :
    (now requester room user : ℕ) (role : RoomRole) (w : World)
    → let m = joined room user role now in
      Decides
        (may_add requester room user w)
        w
        (ok (to_room_member_dto m), record w { room_members = m ∷ w.room_members })
        (add_member now requester room user role w)
unfolding add_member Rooms.add_member
add_member-Decides now requester room user role w = elim (Option-cases (Rooms.find_by_id room w)) [
  | inl r ↦ rw r (not_found "Room not found", refl)
  | inr (x, r) ↦ elim (Option-cases (Rooms.get_member room requester w)) [
    | inl q ↦ rw r (rw q (forbidden "Not a member of this room", refl))
    | inr (y, q) ↦ elim (role-cases y.role) [
      | inl e ↦ rw r (rw q (rw e (forbidden "Admin or owner required", refl)))
      | inr (low, high) ↦ elim (Option-cases (Users.find_by_id user w)) [
        | inl u ↦ rw r (rw q (rw low (rw high (rw u (not_found "User not found", refl)))))
        | inr (v, u) ↦ elim (Option-cases (Rooms.get_member room user w)) [
          | inr (z, t) ↦
              rw r
                (rw q (rw low (rw high (rw u (rw t (conflict "User is already a member", refl))))))
          | inl t ↦
              let in_rooms = find?-some→any (λ r. r.id == room) w.rooms x r in
              let in_users = find?-some→any (λ u. u.id == user) w.users v u in
              let clear = find?-none→any (at room user) w.room_members t in
              rw r
                (rw q (rw low (rw high (rw u (rw t (rw clear (rw in_rooms (rw in_users refl))))))))
        ]
      ]
    ]
  ]
]

-- The three checks on the roles are one comparison of ranks.
remove_by_roles_lem :
    (room target : ℕ) (a b : RoomRole) (w : World)
    → Decides
        (ltb (rank b) (rank a))
        w
        (Rooms.remove_member room target w)
        (remove_by_roles room target a b w)
unfolding remove_by_roles
remove_by_roles_lem room target member member w = (forbidden "Admin or owner required", refl)
remove_by_roles_lem room target member admin w = (forbidden "Admin or owner required", refl)
remove_by_roles_lem room target member owner w = (forbidden "Admin or owner required", refl)
remove_by_roles_lem room target owner owner w = (forbidden "Cannot remove the owner", refl)
remove_by_roles_lem room target admin owner w = (forbidden "Cannot remove the owner", refl)
remove_by_roles_lem room target admin admin w =
    (forbidden "Admin cannot remove another admin", refl)
remove_by_roles_lem room target owner admin w = refl
remove_by_roles_lem room target owner member w = refl
remove_by_roles_lem room target admin member w = refl

remove_other_lem :
    (requester room target : ℕ) (t : RoomMember) (w : World)
    → Decides
        (outranks (Rooms.get_member room requester w) (some t))
        w
        (Rooms.remove_member room target w)
        (remove_other requester room target t.role w)
unfolding remove_other
remove_other_lem requester room target t w =
    elim (Option-cases (Rooms.get_member room requester w)) [
      | inl q ↦ rw q (forbidden "Not a member of this room", refl)
      | inr (m, q) ↦ rw q (remove_by_roles_lem room target m.role t.role w)
    ]

-- A removal deletes the target's row where the room exists, the target is in it, and either the
-- request spells the target's id exactly as the requester's own or the requester, who is in the room
-- too, has the higher role; any other removal raises, and changes nothing.
pub remove_member-Decides :
    (requester room : ℕ) (target : GivenId) (w : World)
    → Decides
        (may_remove requester room target w)
        w
        (ok tt, record w { room_members = remove (at room target.id) w.room_members })
        (remove_member requester room target w)
unfolding remove_member Rooms.remove_member
remove_member-Decides requester room target w = elim (Option-cases (Rooms.find_by_id room w)) [
  | inl r ↦ rw r (not_found "Room not found", refl)
  | inr (x, r) ↦ elim (Option-cases (Rooms.get_member room target.id w)) [
    | inl t ↦ rw r (rw t (not_found "Member not found", refl))
    | inr (m, t) ↦ elim (Bool-cases (requester == target.text)) [
      | inl same ↦ rw r (rw t (rw same refl))
      | inr other ↦ rw r (rw t (rw other (remove_other_lem requester room target.id m w)))
    ]
  ]
]
