-- ===== src/Domain/Users.antt =====
-- src/domain/entities/user.ts
use Prim.Native.String.{String}
use backend_java_spring_boot.Prelude.{ℕ, Option}

pub record User : Type 0 where
  pub id : ℕ
  pub email : String
  pub password_hash : String
  pub display_name : String
  pub avatar_url : Option String
  pub email_verified_at : Option ℕ
  pub created_at : ℕ
  pub updated_at : ℕ

pub record PublicUser : Type 0 where
  pub id : ℕ
  pub email : String
  pub display_name : String
  pub avatar_url : Option String
  pub email_verified_at : Option ℕ

abbrev pub to_public_user : User → PublicUser
to_public_user u = record {
  id = u.id;
  email = u.email;
  display_name = u.display_name;
  avatar_url = u.avatar_url;
  email_verified_at = u.email_verified_at;
}
