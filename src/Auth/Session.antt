-- ===== src/Auth/Session.antt =====
-- _session.ts and revoke-session.ts
use Prim.Native.String.{String}
use backend_java_spring_boot.Prelude.{ℕ, ◌+◌, ◌*◌, Option, none, some, ⊤}
use backend_java_spring_boot.Domain.{RefreshToken, RefreshTokenInsert}
use backend_java_spring_boot.World.{Action, pure, gets, ◌>>=◌, ◌>>◌}
use backend_java_spring_boot.Store.RefreshTokens
use backend_java_spring_boot.Auth.Runtime.{
  Runtime, Config, Clocks, Meta, Draws, Tokens, peppered, generate_refresh,
}

module _ (rt : Runtime) (cfg : Config) where
  -- The row that `createSession` inserts.
  abbrev pub opened : Clocks → Draws → ℕ → Meta → RefreshTokenInsert
  opened clocks draws user_id meta = record {
    id = draws.id;
    user_id = user_id;
    token_hash = (generate_refresh rt cfg draws.raw).1;
    family_id = draws.family_id;
    parent_id = none;
    replaced_by_id = none;
    user_agent = meta.user_agent;
    ip = meta.ip;
    expires_at = clocks.now + cfg.refresh_ttl_sec * 1000;
    revoked_at = none;
  }

  unfoldable pub create_session : Clocks → Draws → ℕ → Meta → Action Tokens
  create_session clocks draws user_id meta = do
    RefreshTokens.insert clocks.db_now (opened clocks draws user_id meta)
    pure (record {
      access_token = rt.sign_access user_id draws.jti clocks.now;
      refresh_token = (generate_refresh rt cfg draws.raw).0;
    })

  -- `RevokeSession.execute`
  unfoldable pub revoke_found : Clocks → Option RefreshToken → Action ⊤
  revoke_found clocks none = pure tt
  revoke_found clocks (some token) = elim token.revoked_at [
    | some _ ↦ pure tt
    | none ↦ RefreshTokens.mark_revoked clocks.db_now token.id none
  ]

  unfoldable pub revoke_session : Clocks → String → Action ⊤
  unfolding revoke_found
  revoke_session clocks raw = do
    token ← gets (RefreshTokens.find_by_hash (peppered rt cfg raw))
    revoke_found clocks token
