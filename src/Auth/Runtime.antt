-- ===== src/Auth/Runtime.antt =====
-- What the sessions take from outside the repository, and the settings of env.ts that they read.
use Prim.Native.String
use Prim.Native.String.{String}
use backend_java_spring_boot.Prelude.{ℕ, ◌≡◌, Bool, true, Option}

-- Bun, jose and the methods of JavaScript's strings.
pub record Runtime : Type 0 where
  pub sha256 : String → ℕ
  -- `SignJWT` for a subject and a token id, at a time
  pub sign_access : (sub jti now : ℕ) → String
  -- `Bun.password`, with the salt that it draws
  pub hash_password : (salt plain : String) → String
  pub verify_password : (plain hash : String) → Bool
  -- `s.toLowerCase().trim()`
  pub normalize : String → String

-- `Bun.password.verify` accepts the password that a hash was made of.
abbrev pub HashesVerify : Runtime → Type 0
HashesVerify rt =
    (salt plain : String) → rt.verify_password plain (rt.hash_password salt plain) ≡ true

pub record Config : Type 0 where
  pub refresh_pepper : String
  pub refresh_ttl_sec : ℕ
  pub grace_window_sec : ℕ
  pub email_verify_url_base : String
  pub email_reset_url_base : String

-- The clocks during a call: the application's and the database's `now()`.
pub record Clocks : Type 0 where
  pub now : ℕ
  pub db_now : ℕ

pub record Meta : Type 0 where
  pub user_agent : Option String
  pub ip : Option String

-- What `createSession` and `rotateToken` draw: the random token, and the ids.
pub record Draws : Type 0 where
  pub raw : String
  pub family_id : ℕ
  pub id : ℕ
  pub jti : ℕ

pub record Tokens : Type 0 where
  pub access_token : String
  pub refresh_token : String

module _ (rt : Runtime) (cfg : Config) where
  -- The hash under which a refresh token is stored.
  abbrev pub peppered : String → ℕ
  peppered raw = rt.sha256 (String.◌++◌ cfg.refresh_pepper raw)

  -- `JoseTokenSigner.generateRefresh`, on the random text that it draws
  abbrev pub generate_refresh : String → String × ℕ
  generate_refresh raw = (raw, peppered raw)
