-- ===== src/Auth/Takeover.antt =====
-- Password resets and the tokens of e-mail links.
use Prim.Native.String.{String}
use backend_java_spring_boot.Prelude.{
  ℕ, ◌≤◌, ◌≡◌, find?-update_clear, update-none, refl, Bool, true, ◌&&◌, none, some, List, count,
  find?, update, arith, ◌==◌, Bool-cases, find?-update, find?-test, count-update_zero,
  count-update_other, inl, inr, if◌then◌else◌,
}
use backend_java_spring_boot.Domain.{
  User, RefreshToken, EmailToken, EmailTokenKind, reset, auth, ok, err,
}
use backend_java_spring_boot.World.{World}
use backend_java_spring_boot.Store.Users
use backend_java_spring_boot.Store.Users.{patched, no_patch, update_user}
use backend_java_spring_boot.Store.RefreshTokens.{is_live, stamped, revoke_all_for_user}
use backend_java_spring_boot.Store.EmailTokens.{is_usable, used, consume}
use backend_java_spring_boot.Auth.Runtime.{Runtime, Config, Clocks}
use backend_java_spring_boot.Auth.EmailLinks.{confirm_password_reset}

abbrev pub live_of : ℕ → List RefreshToken → ℕ
live_of user = count (λ t. (t.user_id == user) && is_live t)

-- A link's token that the table holds, unused, unexpired and of the kind.
abbrev pub Usable : Runtime → ℕ → String → EmailTokenKind → EmailToken → World → Type 0
Usable rt db_now raw kind t w =
    find? (is_usable db_now (rt.sha256 raw) kind) w.email_tokens ≡ some t

module _ (rt : Runtime) (cfg : Config) where
  -- A reset with a usable link and a stored user succeeds: the user has the hash of the new
  -- password, no refresh token of the user is live, and every other user keeps as many live
  -- tokens as before.
  pub password_reset_takes_over :
      (clocks : Clocks) (salt raw password : String) (t : EmailToken) (u : User) (w : World)
      (other : ℕ)
      → Usable rt clocks.db_now raw reset t w
      → Users.find_by_id t.user_id w ≡ some u
      → let (r, w') = confirm_password_reset rt cfg clocks salt raw password w in
        (r ≡ ok tt)
        × (Users.find_by_id t.user_id w'
            ≡ some (record u {
              password_hash = rt.hash_password salt password;
              updated_at = clocks.db_now;
            }))
        × (live_of other w'.refresh_tokens
            ≡ (if other == t.user_id then 0 else live_of other w.refresh_tokens))
  unfolding confirm_password_reset consume update_user revoke_all_for_user
  password_reset_takes_over clocks salt raw password t u w other h f =
      let patch = record no_patch { password_hash = some (rt.hash_password salt password) } in
      let by_id : User → Bool = λ v. v.id == t.user_id in
      let same : by_id u ≡ true = find?-test by_id w.users u f in
      let stored : find? by_id (update by_id (patched clocks.db_now patch) w.users)
          ≡ some (patched clocks.db_now patch u) =
        ground
          (arith, find?-update by_id by_id (patched clocks.db_now patch) w.users u (λ v. refl) f) in
      let p : RefreshToken → Bool = λ v. (v.user_id == t.user_id) && is_live v in
      let stamp = stamped clocks.db_now in
      rw h (
        rw stored (elim (Bool-cases (other == t.user_id)) [
          | inl e ↦
              let eq : other ≡ t.user_id = ground arith in
              (
                refl,
                stored,
                rw e (
                    rw eq (
                      count-update_zero p p stamp w.refresh_tokens (λ v. ground arith) (λ v k. k))),
              )
          | inr e ↦ (
            refl,
            stored,
            rw e (
                count-update_other (λ v. (v.user_id == other) && is_live v) p stamp w.refresh_tokens
                  (λ v k. ground arith)),
          )
        ]))

  -- Once a row is marked, no later request finds it.
  pub consumed :
      (now later hash : ℕ) (kind : EmailTokenKind) (ts : List EmailToken)
      → now ≤ later
      → find? (is_usable later hash kind) (update (is_usable now hash kind) (used now) ts) ≡ none
  consumed now later hash kind ts le =
      find?-update_clear (is_usable later hash kind) (is_usable now hash kind) (used now) ts
        (λ t. ground arith) (λ t e. ground arith)

  -- A use of the link, whatever came of it, leaves the table of the links with the row marked.
  reset-email_tokens :
      (clocks : Clocks) (salt raw password : String) (w : World)
      → (confirm_password_reset rt cfg clocks salt raw password w).1.email_tokens
        ≡ update (is_usable clocks.db_now (rt.sha256 raw) reset) (used clocks.db_now) w.email_tokens
  unfolding confirm_password_reset consume update_user revoke_all_for_user
  reset-email_tokens clocks salt raw password w = ground arith

  refused_of_consumed :
      (clocks : Clocks) (salt raw password : String) (w : World)
      → find? (is_usable clocks.db_now (rt.sha256 raw) reset) w.email_tokens ≡ none
      → confirm_password_reset rt cfg clocks salt raw password w
        ≡ (err (auth "Invalid or expired reset token"), w)
  unfolding confirm_password_reset consume
  refused_of_consumed clocks salt raw password w e =
      rw e (ground (arith, update-none _ (used clocks.db_now) w.email_tokens e))

  -- Whatever the first use of a reset link came to, a later use of it is refused and changes
  -- nothing.
  pub reset_link_single_use :
      (clocks later : Clocks) (salt salt' raw password password' : String) (w : World)
      → clocks.db_now ≤ later.db_now
      → let w' = (confirm_password_reset rt cfg clocks salt raw password w).1 in
        confirm_password_reset rt cfg later salt' raw password' w'
        ≡ (err (auth "Invalid or expired reset token"), w')
  reset_link_single_use clocks later salt salt' raw password password' w le =
      refused_of_consumed later salt' raw password' _ (
        rw (reset-email_tokens clocks salt raw password w)
          (consumed clocks.db_now later.db_now (rt.sha256 raw) reset w.email_tokens le))
