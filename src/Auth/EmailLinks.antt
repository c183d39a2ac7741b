-- ===== src/Auth/EmailLinks.antt =====
-- request-email-verification.ts, confirm-email-verification.ts, request-password-reset.ts and
-- confirm-password-reset.ts
use Prim.Native.String.{String}
use backend_java_spring_boot.Prelude.{
  ℕ, ◌+◌, ◌*◌, Option, none, some, is_some, ⊤, ◌∷◌, if◌then◌else◌,
}
use backend_java_spring_boot.Domain.{User, EmailTokenKind, auth}
use backend_java_spring_boot.World.{Action, pure, gets, modify, or_raise, Mail, ◌>>=◌, ◌>>◌}
use backend_java_spring_boot.Store.Users
use backend_java_spring_boot.Store.Users.{no_patch}
use backend_java_spring_boot.Store.RefreshTokens
use backend_java_spring_boot.Store.EmailTokens
use backend_java_spring_boot.Auth.Runtime.{Runtime, Config, Clocks}
use backend_java_spring_boot.Auth.Credentials.{day_ms, link_of}

-- The random text of the link, and the id of its row.
pub record LinkDraws : Type 0 where
  pub raw : String
  pub id : ℕ

module _ (rt : Runtime) (cfg : Config) (clocks : Clocks) where
  unfoldable pub mail_verification : LinkDraws → ℕ → User → Action ⊤
  mail_verification draws user_id user = do
    EmailTokens.insert (record {
      id = draws.id;
      user_id = user_id;
      kind = EmailTokenKind.verify;
      token_hash = rt.sha256 draws.raw;
      expires_at = clocks.now + day_ms;
    })
    modify (λ w. record w {
      mails = Mail.verification user.email (link_of cfg.email_verify_url_base draws.raw) ∷ w.mails;
    })

  -- `RequestEmailVerification.execute`, on the user that was found
  unfoldable pub verification_for : LinkDraws → ℕ → Option User → Action ⊤
  verification_for draws user_id none = pure tt
  verification_for draws user_id (some user) =
      if is_some user.email_verified_at then pure tt else mail_verification draws user_id user

  unfoldable pub request_email_verification : LinkDraws → ℕ → Action ⊤
  request_email_verification draws user_id = do
    found ← gets (Users.find_by_id user_id)
    verification_for draws user_id found

  -- `ConfirmEmailVerification.execute`
  unfoldable pub confirm_email_verification : String → Action ⊤
  confirm_email_verification raw = do
    consumed ← EmailTokens.consume clocks.db_now (rt.sha256 raw) EmailTokenKind.verify
    token ← or_raise consumed (auth "Invalid or expired verification token")
    Users.update_user clocks.db_now token.user_id
        (record no_patch { email_verified_at = some (some clocks.now) })
    pure tt

  -- `RequestPasswordReset.execute`, on the user that was found
  unfoldable pub reset_for : LinkDraws → Option User → Action ⊤
  reset_for draws none = pure tt
  reset_for draws (some user) = do
    EmailTokens.insert (record {
      id = draws.id;
      user_id = user.id;
      kind = EmailTokenKind.reset;
      token_hash = rt.sha256 draws.raw;
      expires_at = clocks.now + 2 * 60 * 60 * 1000;
    })
    modify (λ w. record w {
      mails = Mail.password_reset user.email (link_of cfg.email_reset_url_base draws.raw) ∷ w.mails;
    })

  unfoldable pub request_password_reset : LinkDraws → String → Action ⊤
  request_password_reset draws email = do
    found ← gets (Users.find_by_email (rt.normalize email))
    reset_for draws found

  -- `ConfirmPasswordReset.execute`, with the salt that the hash draws
  unfoldable pub confirm_password_reset : (salt raw new_password : String) → Action ⊤
  confirm_password_reset salt raw new_password = do
    consumed ← EmailTokens.consume clocks.db_now (rt.sha256 raw) EmailTokenKind.reset
    token ← or_raise consumed (auth "Invalid or expired reset token")
    Users.update_user clocks.db_now token.user_id
        (record no_patch { password_hash = some (rt.hash_password salt new_password) })
    RefreshTokens.revoke_all_for_user clocks.db_now token.user_id
