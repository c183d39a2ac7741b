-- ===== src/Auth/Refusals.antt =====
-- Which presented tokens a refresh accepts, what it leaves alone when it refuses, and logout.
use Prim.Native.String.{String}
use backend_java_spring_boot.Prelude.{
  ℕ, ◌-◌, ◌*◌, ◌≤◌, ◌<◌, ◌≡◌, ◌≢◌, refl, ◌⊎◌, inl, inr, true, Option, none, some, arith, ltb, ◌==◌,
  is_some, Option-cases, Bool-cases, find?-update,
}
use backend_java_spring_boot.Domain.{RefreshToken, Error, auth, ok, err}
use backend_java_spring_boot.World.{World}
use backend_java_spring_boot.Store.RefreshTokens.{
  mark_revoked, revoke_family, revoked, find_by_hash, find_by_id,
}
use backend_java_spring_boot.Auth.Runtime.{peppered, Runtime, Config, Clocks, Meta, Draws, Tokens}
use backend_java_spring_boot.Auth.Session.{revoke_found, revoke_session}
use backend_java_spring_boot.Auth.Rotation.{IsCurrent}
use backend_java_spring_boot.Auth.Refresh.{
  reject_replay, answer_replay, presented_at, refresh_session, grace_replacement,
}

module _ (rt : Runtime) (cfg : Config) where
  -- A rotated token within the grace window, and its live replacement.
  pub record IsRetry (now : ℕ) (raw : String) (c : RefreshToken) (w : World) : Type 0 where
    pub found : find_by_hash (peppered rt cfg raw) w ≡ some c
    pub revoked_at : ℕ
    pub replaced_by : ℕ
    pub replacement : RefreshToken
    pub revoked_then : c.revoked_at ≡ some revoked_at
    pub rotated : c.replaced_by_id ≡ some replaced_by
    pub window : 0 < cfg.grace_window_sec
    pub recent : now - revoked_at ≤ cfg.grace_window_sec * 1000
    pub there : find_by_id replaced_by w ≡ some replacement
    pub live : replacement.revoked_at ≡ none
    pub unexpired : now < replacement.expires_at

  IsRetry-of_replacement :
      (now at : ℕ) (by_id : Option ℕ) (raw : String) (c t : RefreshToken) (w : World)
      → find_by_hash (peppered rt cfg raw) w ≡ some c
      → c.revoked_at ≡ some at
      → c.replaced_by_id ≡ by_id
      → grace_replacement rt cfg now at by_id w ≡ some t
      → IsRetry now raw c w
  IsRetry-of_replacement now at none raw c t w f r b e = absurd (cc)
  IsRetry-of_replacement now at (some id) raw c t w f r b e = record {
    found = f;
    revoked_at = at;
    replaced_by = id;
    replacement = t;
    revoked_then = r;
    rotated = b;
    window = ground arith;
    recent = ground arith;
    there = ground arith;
    live = ground arith;
    unexpired = ground arith;
  }

  presented_sound :
      (clocks : Clocks) (draws : Draws) (raw : String) (meta : Meta) (c : RefreshToken) (w : World)
      (at : Option ℕ) {tokens : Tokens}
      → find_by_hash (peppered rt cfg raw) w ≡ some c
      → c.revoked_at ≡ at
      → (presented_at rt cfg clocks draws c meta at w).0 ≡ ok tokens
      → IsCurrent rt cfg clocks.now raw c w ⊎ IsRetry clocks.now raw c w
  unfolding presented_at answer_replay reject_replay revoke_family
  presented_sound clocks draws raw meta c w none f r e =
      inl (record { found = f; live = r; unexpired = ground arith })
  presented_sound clocks draws raw meta c w (some at) f r e =
      elim (Option-cases (grace_replacement rt cfg clocks.now at c.replaced_by_id w)) [
        | inl n ↦ absurd (elim (Bool-cases (is_some c.replaced_by_id)) [
          | inl s ↦ let e' = rw (n, s) at e in cc
          | inr s ↦ let e' = rw (n, s) at e in cc
        ])
        | inr (t, s) ↦
            inr (IsRetry-of_replacement clocks.now at c.replaced_by_id raw c t w f r refl s)
      ]

  -- A refresh that answers with tokens was shown a live token that has not expired, or, within
  -- the grace window, a rotated one whose replacement is live and has not expired.
  pub refresh_sound :
      (clocks : Clocks) (draws : Draws) (raw : String) (meta : Meta) (w : World) {tokens : Tokens}
      → (refresh_session rt cfg clocks draws raw meta w).0 ≡ ok tokens
      → (c : RefreshToken) × (IsCurrent rt cfg clocks.now raw c w ⊎ IsRetry clocks.now raw c w)
  unfolding refresh_session
  refresh_sound clocks draws raw meta w e =
      elim (Option-cases (find_by_hash (peppered rt cfg raw) w)) [
        | inl n ↦ let e' = rw n at e in absurd (cc)
        | inr (c, f) ↦
            (c, presented_sound clocks draws raw meta c w c.revoked_at f refl (rw f at e))
      ]

  -- A refresh with a token that is unknown, or live and expired, or revoked without a
  -- replacement, as by a logout, raises, and changes nothing.
  pub refresh_refused_unchanged :
      (clocks : Clocks) (draws : Draws) (raw : String) (meta : Meta) (w : World)
      → ((c : RefreshToken)
          → find_by_hash (peppered rt cfg raw) w ≡ some c
          → ((c.revoked_at ≡ none) × (c.expires_at < clocks.now))
            ⊎ ((c.revoked_at ≢ none) × (c.replaced_by_id ≡ none)))
      → (e : Error) × (refresh_session rt cfg clocks draws raw meta w ≡ (err e, w))
  unfolding refresh_session presented_at answer_replay reject_replay
  refresh_refused_unchanged clocks draws raw meta w h =
      elim (Option-cases (find_by_hash (peppered rt cfg raw) w)) [
        | inl n ↦ (auth "Invalid refresh token", rw n)
        | inr (c, f) ↦ elim (h c f) [
          | inl (live, old) ↦
              let late : ltb c.expires_at clocks.now ≡ true = ground arith in
              (auth "Refresh token expired", rw f (rw live (rw late)))
          | inr (gone, unreplaced) ↦ elim (Option-cases c.revoked_at) [
            | inl live ↦ absurd (gone live)
            | inr (at, r) ↦ (auth "Invalid refresh token", rw f (rw r (rw unreplaced)))
          ]
        ]
      ]

  logged_out :
      (clocks : Clocks) (raw : String) (c : RefreshToken) (w : World)
      → find_by_hash (peppered rt cfg raw) w ≡ some c
      → c.revoked_at ≡ none
      → find_by_hash (peppered rt cfg raw) (revoke_session rt cfg clocks raw w).1
        ≡ some (revoked clocks.db_now none c)
  unfolding revoke_session revoke_found mark_revoked
  logged_out clocks raw c w f live = rw f (
      rw live (
        ground (
          arith,
          find?-update (λ t. t.token_hash == peppered rt cfg raw) (λ t. t.id == c.id)
              (revoked clocks.db_now none) w.refresh_tokens c (λ t. refl) f,
        )))

  refresh_of_revoked :
      (clocks : Clocks) (draws : Draws) (raw : String) (meta : Meta) (c : RefreshToken) (at : ℕ)
      (w : World)
      → find_by_hash (peppered rt cfg raw) w ≡ some (revoked at none c)
      → refresh_session rt cfg clocks draws raw meta w ≡ (err (auth "Invalid refresh token"), w)
  unfolding refresh_session presented_at answer_replay reject_replay
  refresh_of_revoked clocks draws raw meta c at w f = rw f

  revoke_of_revoked :
      (clocks : Clocks) (raw : String) (c : RefreshToken) (at : ℕ) (w : World)
      → find_by_hash (peppered rt cfg raw) w ≡ some (revoked at none c)
      → revoke_session rt cfg clocks raw w ≡ (ok tt, w)
  unfolding revoke_session revoke_found
  revoke_of_revoked clocks raw c at w f = rw f

  -- A logout with a live token ends the session: after it, a refresh with the same token at any
  -- time raises and changes nothing, and a second logout changes nothing.
  pub logout_ends_session :
      (clocks later : Clocks) (draws : Draws) (raw : String) (meta : Meta) (c : RefreshToken)
      (w : World)
      → find_by_hash (peppered rt cfg raw) w ≡ some c
      → c.revoked_at ≡ none
      → let w' = (revoke_session rt cfg clocks raw w).1 in
        (refresh_session rt cfg later draws raw meta w' ≡ (err (auth "Invalid refresh token"), w'))
        × (revoke_session rt cfg later raw w' ≡ (ok tt, w'))
  logout_ends_session clocks later draws raw meta c w f live =
      let gone = logged_out clocks raw c w f live in
      (
        refresh_of_revoked later draws raw meta c clocks.db_now _ gone,
        revoke_of_revoked later raw c clocks.db_now _ gone,
      )
