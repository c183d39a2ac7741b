-- ===== src/Store/Users.antt =====
-- PgUserRepository. `email` arrives and is compared as stored.
use Prim.Native.String.{String}
use text.Mathlib.Text.{◌==◌ as str_eq}
use backend_java_spring_boot.Prelude.{
  ℕ, Bool, ◌||◌, Option, none, some, ◌∷◌, any, find?, update, ◌==◌, if◌then◌else◌,
}
use backend_java_spring_boot.Domain.{User, fault, err, ok}
use backend_java_spring_boot.World.{World, Action, row_or_fault}

-- `Omit<User, "createdAt" | "updatedAt">`
pub record UserCreate : Type 0 where
  pub id : ℕ
  pub email : String
  pub password_hash : String
  pub display_name : String
  pub avatar_url : Option String
  pub email_verified_at : Option ℕ

-- A field that is `none` is left out of the patch, which is how the callers pass `undefined`.
pub record UserPatch : Type 0 where
  pub display_name : Option String
  pub avatar_url : Option (Option String)
  pub email_verified_at : Option (Option ℕ)
  pub password_hash : Option String

abbrev pub no_patch : UserPatch
no_patch = record {
  display_name = none;
  avatar_url = none;
  email_verified_at = none;
  password_hash = none;
}

abbrev pub user_exists : ℕ → World → Bool
user_exists id w = any (λ u. u.id == id) w.users

-- The row that the statement inserts; the two dates have their defaults.
abbrev pub created : ℕ → UserCreate → User
created db_now fields = record {
  id = fields.id;
  email = fields.email;
  password_hash = fields.password_hash;
  display_name = fields.display_name;
  avatar_url = fields.avatar_url;
  email_verified_at = fields.email_verified_at;
  created_at = db_now;
  updated_at = db_now;
}

-- The primary key and the unique e-mail.
unfoldable pub create : ℕ → UserCreate → Action User
create db_now fields w =
    if any (λ u. (u.id == fields.id) || str_eq u.email fields.email) w.users
    then (err fault, w)
    else (ok (created db_now fields), record w { users = created db_now fields ∷ w.users })

abbrev pub find_by_id : ℕ → World → Option User
find_by_id id w = find? (λ u. u.id == id) w.users

abbrev pub find_by_email : String → World → Option User
find_by_email email w = find? (λ u. str_eq u.email email) w.users

abbrev pub given {ℓ} : {A : Type ℓ} → Option A → A → A
given none old = old
given (some new) old = new

abbrev pub patched : ℕ → UserPatch → User → User
patched db_now patch u = record u {
  display_name = given patch.display_name u.display_name;
  avatar_url = given patch.avatar_url u.avatar_url;
  email_verified_at = given patch.email_verified_at u.email_verified_at;
  password_hash = given patch.password_hash u.password_hash;
  updated_at = db_now;
}

unfoldable pub update_user : ℕ → ℕ → UserPatch → Action User
update_user db_now id patch w =
    let after = record w { users = update (λ u. u.id == id) (patched db_now patch) w.users } in
    row_or_fault (find_by_id id after) after
