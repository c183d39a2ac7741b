-- ===== src/Auth/Accounts.antt =====
-- Registration and login: one account for an e-mail, and credentials that work.
use Prim.Native.String.{String}
use text.Mathlib.Text.{◌==◌ as str_eq}
use text.Mathlib.TextEquality.{eq_iff}
use text.Mathlib.TextPositions.{eq_refl}
use backend_java_spring_boot.Prelude.{
  ℕ, ◌≤◌, ◌≡◌, refl, sym, ◌∙◌, true, false, ◌||◌, some, List, ◌∷◌, count, any, find?, arith, ◌==◌,
  Option-cases, Bool-cases, ◌⊎◌, inl, inr, find?-none→count,
}
use backend_java_spring_boot.Domain.{User, to_public_user, Error, fault, auth, conflict, ok, err}
use backend_java_spring_boot.World.{World}
use backend_java_spring_boot.Store.Users
use backend_java_spring_boot.Store.Users.{create, created}
use backend_java_spring_boot.Store.RefreshTokens
use backend_java_spring_boot.Store.RefreshTokens.{insert_allowed, inserted, find_by_hash}
use backend_java_spring_boot.Store.EmailTokens
use backend_java_spring_boot.Auth.Runtime.{
  peppered, HashesVerify, Runtime, Config, Clocks, Meta, Draws,
}
use backend_java_spring_boot.Auth.Session.{opened, create_session}
use backend_java_spring_boot.Auth.Credentials.{
  sign_in_registered, new_user, LoginInput, RegisterInput, RegisterDraws, Signed, login_found,
  login, send_verification_email, register,
}

abbrev pub accounts : String → List User → ℕ
accounts email = count (λ u. str_eq u.email email)

module _ (rt : Runtime) (cfg : Config) where
  -- The users after a session was opened, or a mail sent, are the users before.
  create_session-users :
      (clocks : Clocks) (draws : Draws) (user : ℕ) (meta : Meta) (w : World)
      → (create_session rt cfg clocks draws user meta w).1.users ≡ w.users
  unfolding create_session RefreshTokens.insert
  create_session-users clocks draws user meta w = ground arith

  send_verification_email-users :
      (clocks : Clocks) (raw : String) (token_id user_id : ℕ) (email : String) (w : World)
      → (send_verification_email rt cfg clocks raw token_id user_id email w).1.users ≡ w.users
  unfolding send_verification_email EmailTokens.insert
  send_verification_email-users clocks raw token_id user_id email w = ground arith

  sign_in_registered-users :
      (clocks : Clocks) (draws : RegisterDraws) (input : RegisterInput) (u : User) (w : World)
      → (sign_in_registered rt cfg clocks draws input u w).1.users ≡ w.users
  unfolding sign_in_registered
  sign_in_registered-users clocks draws input u w =
      let session = create_session rt cfg clocks draws.session draws.user_id input.meta w in
      ground (
        arith,
        create_session-users clocks draws.session draws.user_id input.meta w,
        send_verification_email-users clocks draws.raw draws.email_token_id draws.user_id
            (rt.normalize input.email) session.1,
      )

  -- A registration raises and leaves the users alone, or puts a new user before them whose
  -- e-mail none had.
  register-cases :
      (clocks : Clocks) (draws : RegisterDraws) (input : RegisterInput) (w : World)
      → let row = created clocks.db_now (new_user rt cfg draws input) in
        ((e : Error) × ((register rt cfg clocks draws input w).0 ≡ err e)
          × ((register rt cfg clocks draws input w).1.users ≡ w.users))
        ⊎ ((accounts (rt.normalize input.email) w.users ≡ 0)
            × ((register rt cfg clocks draws input w).0
                ≡ (sign_in_registered rt cfg clocks draws input row
                    (record w { users = row ∷ w.users })).0)
            × ((register rt cfg clocks draws input w).1.users ≡ row ∷ w.users))
  unfolding register create
  register-cases clocks draws input w =
      elim (Option-cases (Users.find_by_email (rt.normalize input.email) w)) [
        | inr (u, e) ↦ inl (conflict "Email already in use", rw e refl, rw e refl)
        | inl e ↦
            let fields = new_user rt cfg draws input in
            let test = any (λ u. (u.id == fields.id) || str_eq u.email fields.email) w.users in
            rw e (elim (Bool-cases test) [
              | inl clash ↦ inl (fault, rw clash refl, rw clash refl)
              | inr clear ↦ inr (
                find?-none→count (λ u. str_eq u.email (rt.normalize input.email)) w.users e,
                rw clear refl,
                rw clear
                    (sign_in_registered-users clocks draws input (created clocks.db_now fields) _),
              )
            ])
      ]

  -- A registration leaves at most one account for each e-mail, whether it succeeds or raises.
  pub register-accounts :
      (clocks : Clocks) (draws : RegisterDraws) (input : RegisterInput) (w : World) (email : String)
      → ((e : String) → accounts e w.users ≤ 1)
      → accounts email (register rt cfg clocks draws input w).1.users ≤ 1
  register-accounts clocks draws input w email h = elim (register-cases clocks draws input w) [
    | inl (e, raised, same) ↦ rw same (h email)
    | inr (unused, result, added) ↦
        let new = rt.normalize input.email in
        rw added (elim (Bool-cases (str_eq new email)) [
          | inl e ↦
              let same : new ≡ email = (eq_iff new email).0 e in
              ground (arith, rw same at unused, e)
          | inr e ↦ ground (arith, h email, e)
        ])
  ]

  -- An e-mail that is taken, once it is normalised, is refused, and nothing changes.
  pub register_taken :
      (clocks : Clocks) (draws : RegisterDraws) (input : RegisterInput) (u : User) (w : World)
      → Users.find_by_email (rt.normalize input.email) w ≡ some u
      → register rt cfg clocks draws input w ≡ (err (conflict "Email already in use"), w)
  unfolding register
  register_taken clocks draws input u w e = rw e

  -- A login answers the same whether the e-mail is unknown or the password is wrong, and a
  -- refused login changes nothing.
  pub login_refused_alike :
      (clocks : Clocks) (draws : Draws) (input : LoginInput) (w : World)
      → ((u : User)
          → Users.find_by_email (rt.normalize input.email) w ≡ some u
          → rt.verify_password input.password u.password_hash ≡ false)
      → login rt cfg clocks draws input w ≡ (err (auth "Invalid credentials"), w)
  unfolding login login_found
  login_refused_alike clocks draws input w h =
      elim (Option-cases (Users.find_by_email (rt.normalize input.email) w)) [
        | inl n ↦ rw n
        | inr (u, f) ↦ let wrong = h u f in rw f (rw wrong)
      ]

  create_session_lem :
      (clocks : Clocks) (draws : Draws) (user : ℕ) (meta : Meta) (w : World)
      → insert_allowed (opened rt cfg clocks draws user meta) w ≡ true
      → create_session rt cfg clocks draws user meta w ≡ (
        ok (record {
          access_token = rt.sign_access user draws.jti clocks.now;
          refresh_token = draws.raw;
        }),
        record w {
          refresh_tokens =
              inserted clocks.db_now (opened rt cfg clocks draws user meta) ∷ w.refresh_tokens;
        },
      )
  unfolding create_session RefreshTokens.insert
  create_session_lem clocks draws user meta w allowed = rw allowed

  -- A login with the e-mail and the password of a stored user succeeds and opens a session: the
  -- refresh token that it answers with is stored, live, and of that user.
  pub login_opens_session :
      (clocks : Clocks) (draws : Draws) (input : LoginInput) (u : User) (w : World)
      → Users.find_by_email (rt.normalize input.email) w ≡ some u
      → rt.verify_password input.password u.password_hash ≡ true
      → insert_allowed (opened rt cfg clocks draws u.id input.meta) w ≡ true
      → let (r, w') = login rt cfg clocks draws input w in
        let row = inserted clocks.db_now (opened rt cfg clocks draws u.id input.meta) in
        (r
          ≡ ok (record {
            user = to_public_user u;
            tokens = record {
              access_token = rt.sign_access u.id draws.jti clocks.now;
              refresh_token = draws.raw;
            };
          }))
        × (find_by_hash (peppered rt cfg draws.raw) w' ≡ some row)
        × (w'.users ≡ w.users)
  unfolding login login_found
  login_opens_session clocks draws input u w f good allowed = rw f (
      rw good
        (rw (create_session_lem clocks draws u.id input.meta w allowed) (refl, ground arith, refl)))

  sign_in_registered-user :
      (clocks : Clocks) (draws : RegisterDraws) (input : RegisterInput) (u : User) (w : World)
      {signed : Signed}
      → (sign_in_registered rt cfg clocks draws input u w).0 ≡ ok signed
      → signed.user ≡ to_public_user u
  unfolding sign_in_registered
  sign_in_registered-user clocks draws input u w e = ground arith

  -- Whoever has registered can log in at once with the same e-mail and password, as the same user,
  -- where the hash of a password verifies with that password, and the table admits the row of the
  -- login's token (its id and hash are new, its user exists).
  pub register-login :
      (clocks later : Clocks) (draws : RegisterDraws) (again : Draws) (input : RegisterInput)
      (meta : Meta) (w : World) {signed : Signed}
      → HashesVerify rt
      → (register rt cfg clocks draws input w).0 ≡ ok signed
      → insert_allowed
          (opened rt cfg later again draws.user_id meta)
          (register rt cfg clocks draws input w).1
        ≡ true
      → let w' = (register rt cfg clocks draws input w).1 in
        (login rt cfg later again
          (record { email = input.email; password = input.password; meta = meta })
          w').0
        ≡ ok (record {
          user = signed.user;
          tokens = record {
            access_token = rt.sign_access draws.user_id again.jti later.now;
            refresh_token = again.raw;
          };
        })
  register-login clocks later draws again input meta w hashes done allowed =
      elim (register-cases clocks draws input w) [
        | inl (e, raised, same) ↦ absurd (cc)
        | inr (unused, result, added) ↦
            let row = created clocks.db_now (new_user rt cfg draws input) in
            let email = rt.normalize input.email in
            let found : find? (λ u. str_eq u.email email)
                  (register rt cfg clocks draws input w).1.users
                ≡ some row =
              rw added (rw (eq_refl email)) in
            rw (sign_in_registered-user clocks draws input row _ (sym result ∙ done))
              (login_opens_session later again _ row _ found (hashes draws.salt input.password)
                allowed).0
      ]
