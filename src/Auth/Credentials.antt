-- ===== src/Auth/Credentials.antt =====
-- login-user.ts, register-user.ts and get-current-user.ts
use Prim.Native.String
use Prim.Native.String.{String}
use backend_java_spring_boot.Prelude.{ℕ, ◌+◌, ◌*◌, Option, none, some, not, is_some, ⊤, ◌∷◌}
use backend_java_spring_boot.Domain.{
  User, PublicUser, to_public_user, EmailTokenKind, auth, conflict, not_found, ok,
}
use backend_java_spring_boot.World.{
  Action, pure, raise, raise_if, gets, modify, or_raise, Mail, ◌>>=◌, ◌>>◌,
}
use backend_java_spring_boot.Store.Users
use backend_java_spring_boot.Store.EmailTokens
use backend_java_spring_boot.Auth.Runtime.{Runtime, Config, Clocks, Meta, Draws, Tokens}
use backend_java_spring_boot.Auth.Session.{create_session}

pub record LoginInput : Type 0 where
  pub email : String
  pub password : String
  pub meta : Meta

pub record RegisterInput : Type 0 where
  pub email : String
  pub password : String
  pub display_name : String
  pub meta : Meta

-- What the registration draws besides the session's values; `raw` is the token of the mail.
pub record RegisterDraws : Type 0 where
  pub salt : String
  pub user_id : ℕ
  pub session : Draws
  pub raw : String
  pub email_token_id : ℕ

pub record Signed : Type 0 where
  pub user : PublicUser
  pub tokens : Tokens

abbrev pub day_ms : ℕ
day_ms = 24 * 60 * 60 * 1000

abbrev pub link_of : String → String → String
link_of base raw = String.◌++◌ base (String.◌++◌ "?token=" raw)

-- `promise.catch(() => {})`: the call runs, and what it raises is dropped.
abbrev pub swallow : Action ⊤ → Action ⊤
swallow m w = (ok tt, (m w).1)

module _ (rt : Runtime) (cfg : Config) where
  -- `LoginUser.execute` once the user was looked up
  unfoldable pub login_found : Clocks → Draws → LoginInput → Option User → Action Signed
  login_found clocks draws input none = raise (auth "Invalid credentials")
  login_found clocks draws input (some user) = do
    raise_if (not (rt.verify_password input.password user.password_hash))
        (auth "Invalid credentials")
    session ← create_session rt cfg clocks draws user.id input.meta
    pure (record { user = to_public_user user; tokens = session })

  unfoldable pub login : Clocks → Draws → LoginInput → Action Signed
  login clocks draws input = do
    found ← gets (Users.find_by_email (rt.normalize input.email))
    login_found clocks draws input found

  -- `sendVerificationEmail`
  unfoldable pub send_verification_email :
      Clocks → (raw : String) → (token_id user_id : ℕ) → String → Action ⊤
  send_verification_email clocks raw token_id user_id email = do
    EmailTokens.insert (record {
      id = token_id;
      user_id = user_id;
      kind = EmailTokenKind.verify;
      token_hash = rt.sha256 raw;
      expires_at = clocks.now + day_ms;
    })
    modify (λ w. record w {
      mails = Mail.verification email (link_of cfg.email_verify_url_base raw) ∷ w.mails;
    })

  -- The rest of `RegisterUser.execute`, once the user is stored.
  unfoldable pub sign_in_registered : Clocks → RegisterDraws → RegisterInput → User → Action Signed
  sign_in_registered clocks draws input user = do
    session ← create_session rt cfg clocks draws.session draws.user_id input.meta
    swallow (
        send_verification_email clocks draws.raw draws.email_token_id draws.user_id
          (rt.normalize input.email))
    pure (record { user = to_public_user user; tokens = session })

  -- What `RegisterUser.execute` stores of the user.
  abbrev pub new_user : RegisterDraws → RegisterInput → Users.UserCreate
  new_user draws input = record {
    id = draws.user_id;
    email = rt.normalize input.email;
    password_hash = rt.hash_password draws.salt input.password;
    display_name = input.display_name;
    avatar_url = none;
    email_verified_at = none;
  }

  -- `RegisterUser.execute`
  unfoldable pub register : Clocks → RegisterDraws → RegisterInput → Action Signed
  register clocks draws input = do
    existing ← gets (Users.find_by_email (rt.normalize input.email))
    raise_if (is_some existing) (conflict "Email already in use")
    user ← Users.create clocks.db_now (new_user draws input)
    sign_in_registered clocks draws input user

-- `GetCurrentUser.execute`, and `GetUser.execute` of use-cases/users
unfoldable pub get_user : ℕ → Action PublicUser
get_user id = do
  found ← gets (Users.find_by_id id)
  user ← or_raise found (not_found "User not found")
  pure (to_public_user user)
