-- ===== src/Auth/Signer.antt =====
-- jose-token-signer.ts: access tokens. generateRefresh is in Runtime.
use Prim.Native.String.{String}
use backend_java_spring_boot.Prelude.{ℕ, ◌+◌, ◌/◌, ◌<◌, ◌≤◌, ◌≡◌, refl, false, Option, none, some}
use text.Mathlib.Text.{◌==◌ as str_eq}
use backend_java_spring_boot.Json.{◌>>=◌}

-- `AccessTokenClaims`
pub record AccessTokenClaims : Type 0 where
  pub sub : String
  pub jti : String

-- The claims of a token that jose accepts; `none` is one that is no text.
pub record Payload : Type 0 where
  pub sub : Option String
  pub jti : Option String

-- jose, with HS256; times are seconds.
pub record Jose : Type 0 where
  pub sign : (secret sub jti : String) (issued_at expires_at : ℕ) → String
  -- `jwtVerify` at a time; `none` where it raises
  pub verify : (secret token : String) (now : ℕ) → Option Payload

-- What jose promises of a token that it signed: it is no empty text, and it is accepted under the
-- same secret until it expires, with the claims that were signed, and not from then on.
pub record IsJose (jose : Jose) : Type 0 where
  pub filled :
      (secret sub jti : String) (issued_at expires_at : ℕ)
      → str_eq (jose.sign secret sub jti issued_at expires_at) "" ≡ false
  pub accepts :
      (secret sub jti : String) (issued_at expires_at now : ℕ)
      → now < expires_at
      → jose.verify secret (jose.sign secret sub jti issued_at expires_at) now
        ≡ some (record { sub = some sub; jti = some jti })
  pub expires :
      (secret sub jti : String) (issued_at expires_at now : ℕ)
      → expires_at ≤ now
      → jose.verify secret (jose.sign secret sub jti issued_at expires_at) now ≡ none

-- The `config` of the signer, without the pepper
pub record SignerConfig : Type 0 where
  pub access_secret : String
  pub access_ttl_sec : ℕ

-- The second of a time in milliseconds
abbrev pub second_of : ℕ → ℕ
second_of now = now / 1000

module _ (jose : Jose) (cfg : SignerConfig) where
  -- `signAccess`, at a time
  unfoldable pub sign_access : (now : ℕ) → AccessTokenClaims → String
  sign_access now claims =
      jose.sign cfg.access_secret claims.sub claims.jti (second_of now)
        (second_of now + cfg.access_ttl_sec)

  -- The tests of the payload
  abbrev pub claims_of : Payload → Option AccessTokenClaims
  claims_of payload =
      payload.sub >>= λ sub. payload.jti >>= λ jti. some (record { sub = sub; jti = jti })

  -- `verifyAccess`, at a time
  unfoldable pub verify_access : (now : ℕ) → String → Option AccessTokenClaims
  verify_access now token = jose.verify cfg.access_secret token (second_of now) >>= claims_of

  module _ (good : IsJose jose) where
    pub verify_access-signed :
        (signed now : ℕ) (claims : AccessTokenClaims)
        → second_of now < second_of signed + cfg.access_ttl_sec
        → verify_access now (sign_access signed claims) ≡ some claims
    unfolding sign_access verify_access
    verify_access-signed signed now claims early =
        rw
          (good.accepts cfg.access_secret claims.sub claims.jti (second_of signed)
            (second_of signed + cfg.access_ttl_sec) (second_of now) early)
          refl

    pub verify_access-stale :
        (signed now : ℕ) (claims : AccessTokenClaims)
        → second_of signed + cfg.access_ttl_sec ≤ second_of now
        → verify_access now (sign_access signed claims) ≡ none
    unfolding sign_access verify_access
    verify_access-stale signed now claims late =
        rw
          (good.expires cfg.access_secret claims.sub claims.jti (second_of signed)
            (second_of signed + cfg.access_ttl_sec) (second_of now) late)
          refl
