-- ===== src/Auth/Rotation.antt =====
-- What a refresh answers: rotation, single use, and the detection of a replayed token.
use Prim.Native.String.{String}
use backend_java_spring_boot.Prelude.{
  ℕ, ◌≤◌, ◌≡◌, refl, inl, inr, Bool, true, false, ◌&&◌, ◌||◌, none, some, ◌∷◌, any, update, arith,
  ltb, ◌==◌, if◌then◌else◌, is_some, Bool-cases, find?-update, find?-test, count-update_zero,
  count-update_other, any-false-of_find?,
}
use backend_java_spring_boot.Domain.{RefreshToken, auth, ok, err}
use backend_java_spring_boot.World.{World}
use backend_java_spring_boot.Store.RefreshTokens.{
  insert, revoke_family, is_live, inserted, insert_allowed, revoked, stamped, find_by_hash,
  find_by_id,
}
use backend_java_spring_boot.Auth.Runtime.{peppered, Runtime, Config, Clocks, Meta, Draws}
use backend_java_spring_boot.Auth.Linear.{live_in}
use backend_java_spring_boot.Auth.Families.{mark_revoked_for_head}
use backend_java_spring_boot.Auth.Refresh.{
  successor, rotate_token, reject_replay, answer_replay, presented_at, refresh_session,
  grace_replacement,
}

module _ (rt : Runtime) (cfg : Config) where
  -- The token may be exchanged at this time.
  pub record IsCurrent (now : ℕ) (raw : String) (c : RefreshToken) (w : World) : Type 0 where
    pub found : find_by_hash (peppered rt cfg raw) w ≡ some c
    pub live : c.revoked_at ≡ none
    pub unexpired : now ≤ c.expires_at

  pub rotate_token_lem :
      (clocks : Clocks) (draws : Draws) (c : RefreshToken) (meta : Meta) (w : World)
      → insert_allowed (successor rt cfg clocks draws c meta) w ≡ true
      → rotate_token rt cfg clocks draws c meta w ≡ (
        ok (record {
          access_token = rt.sign_access c.user_id draws.jti clocks.now;
          refresh_token = draws.raw;
        }),
        record w {
          refresh_tokens =
              update
                (λ t. t.id == c.id)
                (revoked clocks.db_now (some draws.id))
                (inserted clocks.db_now (successor rt cfg clocks draws c meta) ∷ w.refresh_tokens);
        },
      )
  unfolding rotate_token insert
  rotate_token_lem clocks draws c meta w allowed =
      let new = inserted clocks.db_now (successor rt cfg clocks draws c meta) in
      rw allowed (rw (mark_revoked_for_head clocks.db_now c.id new w.refresh_tokens w))

  pub refresh_current :
      (clocks : Clocks) (draws : Draws) (raw : String) (meta : Meta) (c : RefreshToken) (w : World)
      → IsCurrent clocks.now raw c w
      → refresh_session rt cfg clocks draws raw meta w ≡ rotate_token rt cfg clocks draws c meta w
  unfolding refresh_session presented_at
  refresh_current clocks draws raw meta c w h =
      let young : ltb c.expires_at clocks.now ≡ false = ground (arith, h.unexpired) in
      rw h.found (rw h.live (rw young))

  pub refresh_rotates :
      (clocks : Clocks) (draws : Draws) (raw : String) (meta : Meta) (c : RefreshToken) (w : World)
      → IsCurrent clocks.now raw c w
      → insert_allowed (successor rt cfg clocks draws c meta) w ≡ true
      → let (r, w') = refresh_session rt cfg clocks draws raw meta w in
        let new = inserted clocks.db_now (successor rt cfg clocks draws c meta) in
        (r
          ≡ ok (record {
            access_token = rt.sign_access c.user_id draws.jti clocks.now;
            refresh_token = draws.raw;
          }))
        × (find_by_hash (peppered rt cfg raw) w' ≡ some (revoked clocks.db_now (some draws.id) c))
        × (find_by_hash (peppered rt cfg draws.raw) w' ≡ some new)
        × (find_by_id draws.id w' ≡ some new)
  refresh_rotates clocks draws raw meta c w h allowed =
      let r = successor rt cfg clocks draws c meta in
      let new = inserted clocks.db_now r in
      let clash : any (λ t. (t.id == r.id) || (t.token_hash == r.token_hash)) w.refresh_tokens
          ≡ false =
        ground arith in
      let apart : ((c.id == r.id) || (c.token_hash == r.token_hash)) ≡ false =
        any-false-of_find? _ _ w.refresh_tokens c clash h.found in
      let hash : (c.token_hash == peppered rt cfg raw) ≡ true =
        find?-test _ w.refresh_tokens c h.found in
      let kept =
        find?-update (λ t. t.token_hash == peppered rt cfg raw) (λ t. t.id == c.id)
          (revoked clocks.db_now (some draws.id)) w.refresh_tokens c (λ t. refl) h.found in
      rw
        (
          refresh_current clocks draws raw meta c w h,
          rotate_token_lem clocks draws c meta w allowed,
        )
        (refl, ground arith, ground arith, ground arith)

  -- A token that was rotated, presented when the grace window gives no replacement.
  pub record IsReplay (now : ℕ) (raw : String) (c : RefreshToken) (w : World) : Type 0 where
    pub found : find_by_hash (peppered rt cfg raw) w ≡ some c
    pub revoked_at : ℕ
    pub revoked_then : c.revoked_at ≡ some revoked_at
    pub rotated : is_some c.replaced_by_id ≡ true
    pub no_grace : grace_replacement rt cfg now revoked_at c.replaced_by_id w ≡ none

  -- The replay of a rotated token outside the grace window is refused, and afterwards no token
  -- of its family is live, while every other family has as many live tokens as before.
  pub replay_revokes_family :
      (clocks : Clocks) (draws : Draws) (raw : String) (meta : Meta) (c : RefreshToken) (w : World)
      (f : ℕ)
      → IsReplay clocks.now raw c w
      → let (r, w') = refresh_session rt cfg clocks draws raw meta w in
        (r ≡ err (auth "Invalid refresh token"))
        × (live_in f w'.refresh_tokens
            ≡ (if f == c.family_id then 0 else live_in f w.refresh_tokens))
  unfolding refresh_session presented_at answer_replay reject_replay revoke_family
  replay_revokes_family clocks draws raw meta c w f h =
      let p : RefreshToken → Bool = λ t. (t.family_id == c.family_id) && is_live t in
      let stamp = stamped clocks.db_now in
      rw h.found (
        rw h.revoked_then (
          rw h.no_grace (
            rw h.rotated (elim (Bool-cases (f == c.family_id)) [
              | inl e ↦
                  let same : f ≡ c.family_id = ground arith in
                  (
                    refl,
                    rw e (
                        rw same (
                          count-update_zero p p stamp w.refresh_tokens (λ t. ground arith)
                            (λ t k. k))),
                  )
              | inr e ↦ (
                refl,
                rw e (
                    count-update_other (λ t. (t.family_id == f) && is_live t) p stamp
                      w.refresh_tokens (λ t k. ground arith)),
              )
            ]))))
