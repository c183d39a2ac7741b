-- ===== src/Auth/Refresh.antt =====
-- refresh-session.ts
use Prim.Native.String.{String}
use backend_java_spring_boot.Prelude.{
  ℕ, ◌+◌, ◌-◌, ◌*◌, Option, none, some, Bool, ◌&&◌, ltb, leb, is_some, or_else, if◌then◌else◌,
}
use backend_java_spring_boot.Domain.{RefreshToken, RefreshTokenInsert, auth}
use backend_java_spring_boot.World.{
  World, Action, pure, raise, raise_if, gets, or_raise, ◌>>=◌, ◌>>◌,
}
use backend_java_spring_boot.Store.RefreshTokens
use backend_java_spring_boot.Store.RefreshTokens.{is_live}
use backend_java_spring_boot.Auth.Runtime.{
  Runtime, Config, Clocks, Meta, Draws, Tokens, peppered, generate_refresh,
}

module _ (rt : Runtime) (cfg : Config) where
  -- The row that `rotateToken` inserts.
  abbrev pub successor : Clocks → Draws → RefreshToken → Meta → RefreshTokenInsert
  successor clocks draws current meta = record {
    id = draws.id;
    user_id = current.user_id;
    token_hash = (generate_refresh rt cfg draws.raw).1;
    family_id = current.family_id;
    parent_id = some current.id;
    replaced_by_id = none;
    user_agent = or_else meta.user_agent current.user_agent;
    ip = or_else meta.ip current.ip;
    expires_at = clocks.now + cfg.refresh_ttl_sec * 1000;
    revoked_at = none;
  }

  -- `rotateToken`
  unfoldable pub rotate_token : Clocks → Draws → RefreshToken → Meta → Action Tokens
  rotate_token clocks draws current meta = do
    RefreshTokens.insert clocks.db_now (successor clocks draws current meta)
    RefreshTokens.mark_revoked clocks.db_now current.id (some draws.id)
    pure (record {
      access_token = rt.sign_access current.user_id draws.jti clocks.now;
      refresh_token = (generate_refresh rt cfg draws.raw).0;
    })

  -- `ageMs <= graceWindowSec * 1000`. An age below 0, where the database clock runs ahead, is
  -- within the window, as the truncated difference is.
  abbrev pub in_grace : ℕ → ℕ → Bool
  in_grace now revoked_at =
      ltb 0 cfg.grace_window_sec && leb (now - revoked_at) (cfg.grace_window_sec * 1000)

  -- `replacement && !replacement.revokedAt && replacement.expiresAt > now`
  abbrev pub usable_replacement : ℕ → Option RefreshToken → Option RefreshToken
  usable_replacement now none = none
  usable_replacement now (some t) = if is_live t && ltb now t.expires_at then some t else none

  -- The token that a replay within the grace window is answered with.
  abbrev pub grace_replacement : ℕ → ℕ → Option ℕ → World → Option RefreshToken
  grace_replacement now revoked_at none w = none
  grace_replacement now revoked_at (some id) w =
      if in_grace now revoked_at
      then usable_replacement now (RefreshTokens.find_by_id id w)
      else none

  -- The end of that branch: a token that was rotated takes its family down.
  unfoldable pub reject_replay : Clocks → RefreshToken → Action Tokens
  reject_replay clocks current = do
    (if is_some current.replaced_by_id
        then RefreshTokens.revoke_family clocks.db_now current.family_id
        else pure tt)
    raise (auth "Invalid refresh token")

  -- A replay, with the replacement that the grace window allows.
  unfoldable pub answer_replay :
      Clocks → Draws → RefreshToken → Meta → Option RefreshToken → Action Tokens
  answer_replay clocks draws current meta none = reject_replay clocks current
  answer_replay clocks draws current meta (some replacement) =
      rotate_token clocks draws replacement meta

  -- The rest of `execute` on the token that was found, by its `revokedAt`.
  unfoldable pub presented_at : Clocks → Draws → RefreshToken → Meta → Option ℕ → Action Tokens
  presented_at clocks draws current meta none = do
    raise_if (ltb current.expires_at clocks.now) (auth "Refresh token expired")
    rotate_token clocks draws current meta
  presented_at clocks draws current meta (some revoked_at) = do
    replacement ← gets (grace_replacement clocks.now revoked_at current.replaced_by_id)
    answer_replay clocks draws current meta replacement

  -- `RefreshSession.execute`
  unfoldable pub refresh_session : Clocks → Draws → String → Meta → Action Tokens
  refresh_session clocks draws raw meta = do
    found ← gets (RefreshTokens.find_by_hash (peppered rt cfg raw))
    current ← or_raise found (auth "Invalid refresh token")
    presented_at clocks draws current meta current.revoked_at
