-- ===== src/Seed/Again.antt =====
-- What a second run of scripts/seed-dev.ts meets.
use backend_java_spring_boot.Prelude.{
  ℕ, ⊤, ◌≡◌, refl, ◌∙◌, false, Option, none, some, List, [], ◌∷◌, any, update, ◌==◌, arith,
}
use backend_java_spring_boot.Domain.{User, RoomMember, owner, member, Room, Result, fault, err, ok}
use backend_java_spring_boot.World.{World, Action, continue-keeps, ◌>>◌}
use backend_java_spring_boot.Auth.Runtime.{Runtime}
use backend_java_spring_boot.Store.Users.{UserCreate, user_exists}
use backend_java_spring_boot.Store.Rooms.{room_exists, creator_ok, key_eq, insert_dm_members}
use backend_java_spring_boot.Seed.{
  Draws, renamed, upsert_user, insert_group, insert_member, insert_dm, membership, dev_team,
  alice_and_bob, seeded, seed_users, seed_rooms, seed,
}
use backend_java_spring_boot.Seed.Upserts.{
  has_email, Taken, renamed-same, AfterOk, then-AfterOk, upsert_user-Taken, upsert_user-keeps,
  upsert_again, insert_group-users,
}

key_eq-none : (k : Option (ℕ × ℕ)) → key_eq k none ≡ false
key_eq-none none = refl
key_eq-none (some k) = refl

no_key : (rs : List Room) → any (λ r. key_eq r.dm_key none) rs ≡ false
no_key [] = refl
no_key (r ∷ rs) = ground (arith, no_key rs, key_eq-none r.dm_key)

-- A group without a key, by somebody who is no user
insert_group_by_stranger :
    (room : Room) (w : World)
    → room_exists room.id w ≡ false
    → room.dm_key ≡ none
    → creator_ok room.created_by w ≡ false
    → insert_group room w ≡ (err fault, w)
unfolding insert_group
insert_group_by_stranger room w new keyless stranger =
    rw (new, keyless, no_key w.rooms, stranger) refl

insert_member-users : (m : RoomMember) (w : World) → (insert_member m w).1.users ≡ w.users
unfolding insert_member
insert_member-users m w = ground arith

insert_dm-users : (room : Room) (w : World) → (insert_dm room w).1.users ≡ w.users
unfolding insert_dm
insert_dm-users room w = ground arith

insert_dm_members-users :
    (a b : RoomMember) (w : World) → (insert_dm_members a b w).1.users ≡ w.users
unfolding insert_dm_members
insert_dm_members-users a b w = ground arith

abbrev KeepsUsers : Action ⊤ → Type 0
KeepsUsers m = (w : World) → (m w).1.users ≡ w.users

both-KeepsUsers : (m k : Action ⊤) → KeepsUsers m → KeepsUsers k → KeepsUsers (m >> k)
both-KeepsUsers m k h j w =
    continue-keeps (λ v. v.users ≡ w.users) (m w) (λ _. k) (h w) (λ _ v e. j v ∙ e)

module _ (rt : Runtime) where
  -- `seed_rooms` writes no user.
  rooms-KeepsUsers : (d : Draws) → KeepsUsers (seed_rooms rt d)
  unfolding seed_rooms
  rooms-KeepsUsers d =
      let alice = insert_member (membership rt d d.room_id d.alice owner) in
      let bob = insert_member (membership rt d d.room_id d.bob member) in
      let carol = insert_member (membership rt d d.room_id d.carol member) in
      let direct = insert_dm (alice_and_bob rt d) in
      let pair =
        insert_dm_members (membership rt d d.dm_id d.alice member)
          (membership rt d d.dm_id d.bob member) in
      both-KeepsUsers (insert_group (dev_team rt d)) (alice >> (bob >> (carol >> (direct >> pair))))
        (insert_group-users (dev_team rt d))
        (both-KeepsUsers alice (bob >> (carol >> (direct >> pair))) (insert_member-users _) (
          both-KeepsUsers bob (carol >> (direct >> pair)) (insert_member-users _) (
            both-KeepsUsers carol (direct >> pair) (insert_member-users _) (
              both-KeepsUsers direct pair (insert_dm-users (alice_and_bob rt d))
                (insert_dm_members-users _ _)))))

  abbrev AllTaken : World → Type 0
  AllTaken w = Taken "alice@dev.local" w × Taken "bob@dev.local" w × Taken "carol@dev.local" w

  abbrev alice : Draws → UserCreate
  alice d = seeded rt d d.alice "alice@dev.local" "Alice Dev"

  abbrev bob : Draws → UserCreate
  bob d = seeded rt d d.bob "bob@dev.local" "Bob Dev"

  abbrev carol : Draws → UserCreate
  carol d = seeded rt d d.carol "carol@dev.local" "Carol Dev"

  users-AllTaken : (d : Draws) (w : World) → AfterOk AllTaken (seed_users rt d w)
  unfolding seed_users
  users-AllTaken d w =
      then-AfterOk (Taken "alice@dev.local") AllTaken (upsert_user d.db_now (alice d) w) _
        (upsert_user-Taken d.db_now (alice d) w)
        λ w1 h1.
          then-AfterOk (λ v. Taken "alice@dev.local" v × Taken "bob@dev.local" v) AllTaken
            (upsert_user d.db_now (bob d) w1) _
            (λ e.
              (upsert_user-keeps d.db_now (bob d) _ w1 h1, upsert_user-Taken d.db_now (bob d) w1 e))
            λ w2 h2 e. (
              upsert_user-keeps d.db_now (carol d) _ w2 h2.0,
              upsert_user-keeps d.db_now (carol d) _ w2 h2.1,
              upsert_user-Taken d.db_now (carol d) w2 e,
            )

  seed-AllTaken : (d : Draws) (w : World) → AfterOk AllTaken (seed rt d w)
  unfolding seed
  seed-AllTaken d w =
      then-AfterOk AllTaken AllTaken (seed_users rt d w) _ (users-AllTaken d w)
        λ v h e. rw (rooms-KeepsUsers d v) h

  -- With the e-mails taken, the users are renamed and keep their ids.
  users_again :
      (d : Draws) (w : World)
      → AllTaken w
      → (us : List User) × (seed_users rt d w ≡ (ok tt, record w { users = us }))
        × ((n : ℕ) → any (λ u. u.id == n) us ≡ any (λ u. u.id == n) w.users)
  unfolding seed_users
  users_again d w (a, b, c) =
      let us1 = update (has_email "alice@dev.local") (renamed "Alice Dev") w.users in
      let w1 : World = record w { users = us1 } in
      let us2 = update (has_email "bob@dev.local") (renamed "Bob Dev") us1 in
      let w2 : World = record w { users = us2 } in
      let us3 = update (has_email "carol@dev.local") (renamed "Carol Dev") us2 in
      let step1 = upsert_again d.db_now (alice d) w a in
      let taken2 : Taken "bob@dev.local" w1 =
        renamed-same (has_email "bob@dev.local") (has_email "alice@dev.local") "Alice Dev" w.users
          (λ _. refl)
        ∙ b in
      let step2 = upsert_again d.db_now (bob d) w1 taken2 in
      let taken3 : Taken "carol@dev.local" w2 =
        renamed-same (has_email "carol@dev.local") (has_email "bob@dev.local") "Bob Dev" us1
          (λ _. refl)
        ∙ (renamed-same (has_email "carol@dev.local") (has_email "alice@dev.local") "Alice Dev"
              w.users (λ _. refl)
            ∙ c) in
      let step3 = upsert_again d.db_now (carol d) w2 taken3 in
      (
        us3,
        rw step1 (rw step2 step3),
        λ n.
            renamed-same (λ u. u.id == n) (has_email "carol@dev.local") "Carol Dev" us2 (λ _. refl)
            ∙ (renamed-same (λ u. u.id == n) (has_email "bob@dev.local") "Bob Dev" us1 (λ _. refl)
                ∙ renamed-same (λ u. u.id == n) (has_email "alice@dev.local") "Alice Dev" w.users
                    (λ _. refl)),
      )

  abbrev Refused : Result ⊤ × World → World → Type 0
  Refused r w = (r.0 ≡ err fault) × (r.1.rooms ≡ w.rooms) × (r.1.room_members ≡ w.room_members)

  taken-Refused :
      (d : Draws) (w : World)
      → AllTaken w
      → user_exists d.alice w ≡ false
      → room_exists d.room_id w ≡ false
      → Refused (seed rt d w) w
  unfolding seed seed_rooms
  taken-Refused d w taken alice_new room_new =
      let (us, done, same) = users_again d w taken in
      let group =
        insert_group_by_stranger (dev_team rt d) (record w { users = us }) room_new refl
          (same d.alice ∙ alice_new) in
      rw done (rw group (refl, refl, refl))

  -- A second run of the script raises, and makes no room: it hands the id that it drew for Alice
  -- to the room, and the row that is there has the id of the first run. The ids that the second run
  -- draws for Alice and for the group are new.
  pub seed_again_raises :
      (d d' : Draws) (w : World)
      → (seed rt d w).0 ≡ ok tt
      → user_exists d'.alice (seed rt d w).1 ≡ false
      → room_exists d'.room_id (seed rt d w).1 ≡ false
      → Refused (seed rt d' (seed rt d w).1) (seed rt d w).1
  seed_again_raises d d' w first = taken-Refused d' (seed rt d w).1 (seed-AllTaken d w first)
