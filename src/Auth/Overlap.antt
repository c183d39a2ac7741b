-- ===== src/Auth/Overlap.antt =====
-- Two refreshes with one token that overlap: both look the token up before either writes.
use Prim.Native.String.{String}
use backend_java_spring_boot.Prelude.{
  ℕ, ◌≤◌, ◌≡◌, refl, ap, Bool, true, false, ◌||◌, none, some, any, find?, arith, ltb, ◌==◌,
  find?-update, find?-test, any-false-of_find?,
}
use backend_java_spring_boot.Domain.{RefreshToken, ok}
use backend_java_spring_boot.World.{World, Action}
use backend_java_spring_boot.Store.RefreshTokens.{inserted, insert_allowed, revoked, find_by_id}
use backend_java_spring_boot.Auth.Runtime.{Runtime, Config, Clocks, Meta, Draws, Tokens}
use backend_java_spring_boot.Auth.Refresh.{successor, rotate_token, presented_at, refresh_session}
use backend_java_spring_boot.Auth.Rotation.{IsCurrent, refresh_rotates, rotate_token_lem}

-- A live token of a family
abbrev pub LiveIn : (family id : ℕ) → World → Type 0
LiveIn family id w =
    (t : RefreshToken) × (find_by_id id w ≡ some t) × (t.revoked_at ≡ none) × (t.family_id ≡ family)

module _ (rt : Runtime) (cfg : Config) where
  -- The second refresh, which found the token before the first one wrote
  unfoldable pub refresh_after_lookup : Clocks → Draws → RefreshToken → Meta → Action Tokens
  refresh_after_lookup clocks draws current meta =
      presented_at rt cfg clocks draws current meta current.revoked_at

  -- A row that is not the rotated one is found as before.
  rotate_token-keeps :
      (clocks : Clocks) (draws : Draws) (c x : RefreshToken) (meta : Meta) (w : World) (n : ℕ)
      → insert_allowed (successor rt cfg clocks draws c meta) w ≡ true
      → find_by_id n w ≡ some x
      → (n == c.id) ≡ false
      → find_by_id n (rotate_token rt cfg clocks draws c meta w).1 ≡ some x
  rotate_token-keeps clocks draws c x meta w n allowed found other =
      let r = successor rt cfg clocks draws c meta in
      let clash : any (λ t. (t.id == r.id) || (t.token_hash == r.token_hash)) w.refresh_tokens
          ≡ false =
        ground arith in
      let apart = any-false-of_find? _ _ w.refresh_tokens x clash found in
      let own : (x.id == n) ≡ true = find?-test _ w.refresh_tokens x found in
      let kept =
        find?-update (λ t. t.id == n) (λ t. t.id == c.id) (revoked clocks.db_now (some draws.id))
          w.refresh_tokens x (λ t. refl) found in
      rw (rotate_token_lem rt cfg clocks draws c meta w allowed) (ground arith)

  -- The successor is found.
  rotate_token-new :
      (clocks : Clocks) (draws : Draws) (c : RefreshToken) (meta : Meta) (w : World)
      → insert_allowed (successor rt cfg clocks draws c meta) w ≡ true
      → (c.id == draws.id) ≡ false
      → find_by_id draws.id (rotate_token rt cfg clocks draws c meta w).1
        ≡ some (inserted clocks.db_now (successor rt cfg clocks draws c meta))
  rotate_token-new clocks draws c meta w allowed other =
      rw (rotate_token_lem rt cfg clocks draws c meta w allowed) (ground arith)

  after_lookup_lem :
      (clocks : Clocks) (draws : Draws) (c : RefreshToken) (meta : Meta) (w : World)
      → c.revoked_at ≡ none
      → clocks.now ≤ c.expires_at
      → refresh_after_lookup clocks draws c meta w ≡ rotate_token rt cfg clocks draws c meta w
  unfolding refresh_after_lookup presented_at
  after_lookup_lem clocks draws c meta w live early =
      let young : ltb c.expires_at clocks.now ≡ false = ground (arith, early) in
      rw live (rw young refl)

  -- A row that is there is not the one that an insert adds.
  row-apart :
      (clocks : Clocks) (draws : Draws) (c x : RefreshToken) (meta : Meta) (w : World)
      (test : RefreshToken → Bool)
      → insert_allowed (successor rt cfg clocks draws c meta) w ≡ true
      → find? test w.refresh_tokens ≡ some x
      → (x.id == draws.id) ≡ false
  row-apart clocks draws c x meta w test allowed found =
      let r = successor rt cfg clocks draws c meta in
      let clash : any (λ t. (t.id == r.id) || (t.token_hash == r.token_hash)) w.refresh_tokens
          ≡ false =
        ground arith in
      let apart = any-false-of_find? test _ w.refresh_tokens x clash found in ground (arith, apart)

  -- Two refreshes with one live, unexpired token, the second of which found the token before the
  -- first one wrote, both succeed where the rows that they insert keep the keys of the table:
  -- afterwards the family has two different live tokens.
  pub overlapping_refreshes_fork :
      (clocks clocks' : Clocks) (draws draws' : Draws) (raw : String) (meta meta' : Meta)
      (c : RefreshToken) (w : World)
      → IsCurrent rt cfg clocks.now raw c w
      → clocks'.now ≤ c.expires_at
      → insert_allowed (successor rt cfg clocks draws c meta) w ≡ true
      → insert_allowed
          (successor rt cfg clocks' draws' c meta')
          (refresh_session rt cfg clocks draws raw meta w).1
        ≡ true
      → let (first, w1) = refresh_session rt cfg clocks draws raw meta w in
        let (second, w2) = refresh_after_lookup clocks' draws' c meta' w1 in
        (first
          ≡ ok (record {
            access_token = rt.sign_access c.user_id draws.jti clocks.now;
            refresh_token = draws.raw;
          }))
        × (second
            ≡ ok (record {
              access_token = rt.sign_access c.user_id draws'.jti clocks'.now;
              refresh_token = draws'.raw;
            }))
        × LiveIn c.family_id draws.id w2
        × LiveIn c.family_id draws'.id w2
        × ((draws.id == draws'.id) ≡ false)
  overlapping_refreshes_fork clocks clocks' draws draws' raw meta meta' c w h early allowed
        allowed' =
      let w1 = (refresh_session rt cfg clocks draws raw meta w).1 in
      let (answered, old, _, new) = refresh_rotates rt cfg clocks draws raw meta c w h allowed in
      let mine = row-apart clocks draws c c meta w _ allowed h.found in
      let yours =
        row-apart clocks' draws' c (revoked clocks.db_now (some draws.id) c) meta' w1 _ allowed'
          old in
      let apart =
        row-apart clocks' draws' c (inserted clocks.db_now (successor rt cfg clocks draws c meta))
          meta' w1 _ allowed' new in
      let second = rotate_token_lem rt cfg clocks' draws' c meta' w1 allowed' in
      let row = inserted clocks.db_now (successor rt cfg clocks draws c meta) in
      let row' = inserted clocks'.db_now (successor rt cfg clocks' draws' c meta') in
      rw (after_lookup_lem clocks' draws' c meta' w1 h.live early) (
        answered,
        ap (λ r. r.0) second,
        (
          row,
          rotate_token-keeps clocks' draws' c row meta' w1 draws.id allowed' new
              (ground (arith, mine)),
          refl,
          refl,
        ),
        (row', rotate_token-new clocks' draws' c meta' w1 allowed' yours, refl, refl),
        apart,
      )
