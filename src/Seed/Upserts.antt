-- ===== src/Seed/Upserts.antt =====
-- What the upserts of scripts/seed-dev.ts make of the users.
use Prim.Native.String.{String}
use text.Mathlib.Text.{◌==◌ as str_eq}
use text.Mathlib.TextPositions.{eq_refl}
use backend_java_spring_boot.Prelude.{
  ℕ, ⊤, ◌≡◌, refl, ◌∙◌, Bool, true, Bool-cases, inl, inr, List, [], ◌∷◌, any, update, arith,
}
use backend_java_spring_boot.Domain.{User, Room, Result, err, ok}
use backend_java_spring_boot.World.{World, Action, continue_with}
use backend_java_spring_boot.Store.Users.{UserCreate, create}
use backend_java_spring_boot.Seed.{renamed, upsert_user, insert_group}

abbrev pub has_email : String → User → Bool
has_email email u = str_eq u.email email

abbrev pub Taken : String → World → Type 0
Taken email w = any (has_email email) w.users ≡ true

pub renamed-same :
    (p q : User → Bool) (name : String) (us : List User)
    → ((u : User) → p (renamed name u) ≡ p u)
    → any p (update q (renamed name) us) ≡ any p us
renamed-same p q name [] h = refl
renamed-same p q name (u ∷ us) h = ground (arith, renamed-same p q name us h, h u)

-- What holds after a call that ended well.
abbrev pub AfterOk : (World → Type 0) → Result ⊤ × World → Type 0
AfterOk P r = r.0 ≡ ok tt → P r.1

pub then-AfterOk :
    (P Q : World → Type 0) (r : Result ⊤ × World) (k : Action ⊤)
    → AfterOk P r
    → ((w : World) → P w → AfterOk Q (k w))
    → AfterOk Q (continue_with r (λ _. k))
then-AfterOk P Q (ok tt, w) k h next = next w (h refl)
then-AfterOk P Q (err e, w) k h next = λ e. ground arith

pub upsert_user-Taken :
    (t : ℕ) (u : UserCreate) (w : World) → AfterOk (Taken u.email) (upsert_user t u w)
unfolding upsert_user create
upsert_user-Taken t u w = elim (Bool-cases (any (has_email u.email) w.users)) [
  | inl known ↦ rw known (λ e.
      renamed-same (has_email u.email) (has_email u.email) u.display_name w.users (λ v. refl)
      ∙ known)
  | inr new ↦ rw new (λ e. ground (arith, eq_refl u.email))
]

pub upsert_user-keeps :
    (t : ℕ) (u : UserCreate) (email : String) (w : World)
    → Taken email w
    → Taken email (upsert_user t u w).1
unfolding upsert_user create
upsert_user-keeps t u email w h = elim (Bool-cases (any (has_email u.email) w.users)) [
  | inl known ↦
      rw known
        (renamed-same (has_email email) (has_email u.email) u.display_name w.users (λ v. refl) ∙ h)
  | inr new ↦ rw new (ground arith)
]

pub upsert_again :
    (t : ℕ) (u : UserCreate) (w : World)
    → Taken u.email w
    → upsert_user t u w
      ≡ (ok tt, record w { users = update (has_email u.email) (renamed u.display_name) w.users })
unfolding upsert_user
upsert_again t u w h = rw h refl

pub insert_group-users : (room : Room) (w : World) → (insert_group room w).1.users ≡ w.users
unfolding insert_group
insert_group-users room w = ground arith
