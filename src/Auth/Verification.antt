-- ===== src/Auth/Verification.antt =====
-- The verification of an e-mail address, from the request of a link to its use.
use Prim.Native.String.{String}
use backend_java_spring_boot.Prelude.{
  ℕ, ◌+◌, ◌≤◌, ◌<◌, ◌≡◌, refl, Bool, true, false, ◌||◌, none, some, ◌∷◌, any, find?, update, arith,
  ◌==◌, find?-update, find?-test, find?-some→any, update-none,
}
use backend_java_spring_boot.Domain.{User, EmailToken, verify, auth, ok, err}
use backend_java_spring_boot.World.{World, Mail}
use backend_java_spring_boot.Store.Users
use backend_java_spring_boot.Store.Users.{patched, no_patch, update_user}
use backend_java_spring_boot.Store.EmailTokens
use backend_java_spring_boot.Store.EmailTokens.{is_usable, used, consume}
use backend_java_spring_boot.Auth.Runtime.{Runtime, Config, Clocks}
use backend_java_spring_boot.Auth.Credentials.{day_ms, link_of}
use backend_java_spring_boot.Auth.Takeover.{Usable, consumed}
use backend_java_spring_boot.Auth.EmailLinks.{
  LinkDraws, mail_verification, verification_for, request_email_verification,
  confirm_email_verification,
}

module _ (rt : Runtime) (cfg : Config) where
  -- The row of a link
  abbrev pub link_row : Clocks → LinkDraws → ℕ → EmailToken
  link_row clocks draws user = record {
    id = draws.id;
    user_id = user;
    kind = verify;
    token_hash = rt.sha256 draws.raw;
    expires_at = clocks.now + day_ms;
    used_at = none;
  }

  -- The state with a link
  abbrev pub with_link : Clocks → LinkDraws → User → World → World
  with_link clocks draws u w = record w {
    email_tokens = link_row clocks draws u.id ∷ w.email_tokens;
    mails = Mail.verification u.email (link_of cfg.email_verify_url_base draws.raw) ∷ w.mails;
  }

  requested :
      (clocks : Clocks) (draws : LinkDraws) (u : User) (w : World)
      → Users.find_by_id u.id w ≡ some u
      → u.email_verified_at ≡ none
      → any (λ t. (t.id == draws.id) || (t.token_hash == rt.sha256 draws.raw)) w.email_tokens
        ≡ false
      → request_email_verification rt cfg clocks draws u.id w ≡ (ok tt, with_link clocks draws u w)
  unfolding request_email_verification verification_for mail_verification EmailTokens.insert
  requested clocks draws u w found unverified new =
      rw found
        (rw unverified (rw new (rw (find?-some→any (λ v. v.id == u.id) w.users u found) refl)))

  -- A usable link verifies its user.
  confirmed :
      (clocks : Clocks) (raw : String) (t : EmailToken) (u : User) (w : World)
      → Usable rt clocks.db_now raw verify t w
      → Users.find_by_id t.user_id w ≡ some u
      → let (r, w') = confirm_email_verification rt cfg clocks raw w in
        (r ≡ ok tt)
        × (Users.find_by_id t.user_id w'
            ≡ some (record u { email_verified_at = some clocks.now; updated_at = clocks.db_now }))
  unfolding confirm_email_verification consume update_user
  confirmed clocks raw t u w h f =
      let patch = record no_patch { email_verified_at = some (some clocks.now) } in
      let by_id : User → Bool = λ v. v.id == t.user_id in
      let same : by_id u ≡ true = find?-test by_id w.users u f in
      let stored : find? by_id (update by_id (patched clocks.db_now patch) w.users)
          ≡ some (patched clocks.db_now patch u) =
        ground
          (arith, find?-update by_id by_id (patched clocks.db_now patch) w.users u (λ v. refl) f) in
      rw h (rw stored (refl, stored))

  confirm-email_tokens :
      (clocks : Clocks) (raw : String) (w : World)
      → (confirm_email_verification rt cfg clocks raw w).1.email_tokens
        ≡ update
            (is_usable clocks.db_now (rt.sha256 raw) verify)
            (used clocks.db_now)
            w.email_tokens
  unfolding confirm_email_verification consume update_user
  confirm-email_tokens clocks raw w = ground arith

  unusable-refused :
      (clocks : Clocks) (raw : String) (w : World)
      → find? (is_usable clocks.db_now (rt.sha256 raw) verify) w.email_tokens ≡ none
      → confirm_email_verification rt cfg clocks raw w
        ≡ (err (auth "Invalid or expired verification token"), w)
  unfolding confirm_email_verification consume
  unusable-refused clocks raw w e =
      rw e (ground (arith, update-none _ (used clocks.db_now) w.email_tokens e))

  request-done :
      (clocks : Clocks) (draws : LinkDraws) (u : User) (n time : ℕ) (w : World)
      → Users.find_by_id n w ≡ some u
      → u.email_verified_at ≡ some time
      → request_email_verification rt cfg clocks draws n w ≡ (ok tt, w)
  unfolding request_email_verification verification_for
  request-done clocks draws u n time w found verified = rw found (rw verified refl)

  -- A stored user without a verified address asks for a link, whose row keeps the keys of the
  -- table: one mail with the link goes to the user's address. A use of the link within a day
  -- verifies the user at that time; a later use is refused and changes nothing, and a further
  -- request for a link changes nothing. The link expires by the clock of the database.
  pub verification_round_trip :
      (clocks later again : Clocks) (draws more : LinkDraws) (u : User) (w : World)
      → Users.find_by_id u.id w ≡ some u
      → u.email_verified_at ≡ none
      → any (λ t. (t.id == draws.id) || (t.token_hash == rt.sha256 draws.raw)) w.email_tokens
        ≡ false
      → later.db_now < clocks.now + day_ms
      → later.db_now ≤ again.db_now
      → let (asked, w1) = request_email_verification rt cfg clocks draws u.id w in
        let (answer, w2) = confirm_email_verification rt cfg later draws.raw w1 in
        (asked ≡ ok tt)
        × (w1.mails
            ≡ Mail.verification u.email (link_of cfg.email_verify_url_base draws.raw) ∷ w.mails)
        × (answer ≡ ok tt)
        × (Users.find_by_id u.id w2
            ≡ some (record u { email_verified_at = some later.now; updated_at = later.db_now }))
        × (confirm_email_verification rt cfg again draws.raw w2
            ≡ (err (auth "Invalid or expired verification token"), w2))
        × (request_email_verification rt cfg again more u.id w2 ≡ (ok tt, w2))
  verification_round_trip clocks later again draws more u w found unverified new early after =
      let w1 = with_link clocks draws u w in
      let w2 = (confirm_email_verification rt cfg later draws.raw w1).1 in
      let usable : Usable rt later.db_now draws.raw verify (link_row clocks draws u.id) w1 =
        ground (arith, early) in
      let (answer, stored) =
        confirmed later draws.raw (link_row clocks draws u.id) u w1 usable found in
      rw (requested clocks draws u w found unverified new) (
        refl,
        refl,
        answer,
        stored,
        unusable-refused again draws.raw w2 (
            rw (confirm-email_tokens later draws.raw w1) (
              consumed rt cfg later.db_now again.db_now (rt.sha256 draws.raw) verify w1.email_tokens
                after)),
        request-done again more
            (record u { email_verified_at = some later.now; updated_at = later.db_now }) u.id
            later.now w2 stored refl,
      )
