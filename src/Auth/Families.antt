-- ===== src/Auth/Families.antt =====
-- The invariant of the refresh tokens: ids and hashes are unique, and a family has at most one
-- live token.
use Prim.Native.String.{String}
use backend_java_spring_boot.Prelude.{ℕ, ◌≡◌, some, List, ◌∷◌, update, arith, ◌==◌, inl, inr}
use backend_java_spring_boot.Domain.{RefreshToken, ok}
use backend_java_spring_boot.World.{World}
use backend_java_spring_boot.Store.RefreshTokens.{mark_revoked, inserted, revoked}
use backend_java_spring_boot.Auth.Runtime.{Runtime, Config, Clocks, Meta, Draws}
use backend_java_spring_boot.Auth.Session.{opened, create_session}
use backend_java_spring_boot.Auth.Linear.{AreLinear, live_in, cons-AreLinear, insert-cases}

-- The row that replaces a token is there when the token is revoked in its favour.
pub mark_revoked_for_head :
    (db_now id : ℕ) (new : RefreshToken) (ts : List RefreshToken) (w : World)
    → mark_revoked db_now id (some new.id) (record w { refresh_tokens = new ∷ ts }) ≡ (
      ok tt,
      record w {
        refresh_tokens = update (λ t. t.id == id) (revoked db_now (some new.id)) (new ∷ ts);
      },
    )
unfolding mark_revoked
mark_revoked_for_head db_now id new ts w = ground arith

module _ (rt : Runtime) (cfg : Config) (clocks : Clocks) (draws : Draws) where
  create_session-AreLinear :
      (user : ℕ) (meta : Meta) (w : World)
      → AreLinear w.refresh_tokens
      → live_in draws.family_id w.refresh_tokens ≡ 0
      → AreLinear (create_session rt cfg clocks draws user meta w).1.refresh_tokens
  unfolding create_session
  create_session-AreLinear user meta w h fresh =
      let r = opened rt cfg clocks draws user meta in
      elim (insert-cases clocks.db_now r w) [
        | inl e ↦ rw e h
        | inr (i, k, e) ↦
            rw e (cons-AreLinear (inserted clocks.db_now r) w.refresh_tokens h i k fresh)
      ]
