-- ===== src/Domain/Tokens.antt =====
-- src/domain/entities/refresh-token.ts and email-token.ts
use Prim.Native.String.{String}
use backend_java_spring_boot.Prelude.{ℕ, Option, Bool, true, false}

pub record RefreshToken : Type 0 where
  pub id : ℕ
  pub user_id : ℕ
  pub token_hash : ℕ
  pub family_id : ℕ
  pub parent_id : Option ℕ
  pub replaced_by_id : Option ℕ
  pub user_agent : Option String
  pub ip : Option String
  pub expires_at : ℕ
  pub revoked_at : Option ℕ
  pub created_at : ℕ

-- `Omit<RefreshToken, "createdAt">`
pub record RefreshTokenInsert : Type 0 where
  pub id : ℕ
  pub user_id : ℕ
  pub token_hash : ℕ
  pub family_id : ℕ
  pub parent_id : Option ℕ
  pub replaced_by_id : Option ℕ
  pub user_agent : Option String
  pub ip : Option String
  pub expires_at : ℕ
  pub revoked_at : Option ℕ

pub data EmailTokenKind : Type 0 where
  verify reset : EmailTokenKind

abbrev pub kind_eq : EmailTokenKind → EmailTokenKind → Bool
kind_eq verify verify = true
kind_eq verify reset = false
kind_eq reset verify = false
kind_eq reset reset = true

pub record EmailToken : Type 0 where
  pub id : ℕ
  pub user_id : ℕ
  pub kind : EmailTokenKind
  pub token_hash : ℕ
  pub expires_at : ℕ
  pub used_at : Option ℕ

-- `Omit<EmailToken, "usedAt">`
pub record EmailTokenInsert : Type 0 where
  pub id : ℕ
  pub user_id : ℕ
  pub kind : EmailTokenKind
  pub token_hash : ℕ
  pub expires_at : ℕ
