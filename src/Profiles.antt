-- ===== src/Profiles.antt =====
-- update-profile.ts and list-users.ts, with `listAll` of pg-user-repository.ts
use Prim.Native.String.{String}
use backend_java_spring_boot.Prelude.{
  ℕ, Bool, true, Option, some, List, map, filter, any, not, sort_by, ◌==◌, ◌≡◌, refl, find?-update,
  find?-test, update, find?, arith,
}
use backend_java_spring_boot.Domain.{User, PublicUser, to_public_user, ok}
use backend_java_spring_boot.World.{World, Action, pure, gets, ◌>>=◌}
use backend_java_spring_boot.Store.Users
use backend_java_spring_boot.Store.Users.{no_patch, patched, update_user}

-- A field that the request leaves out is `none`.
pub record UpdateProfileInput : Type 0 where
  pub display_name : Option String
  pub avatar_url : Option (Option String)

abbrev pub profile_patch : UpdateProfileInput → Users.UserPatch
profile_patch input = record no_patch {
  display_name = input.display_name;
  avatar_url = input.avatar_url;
}

-- `UpdateProfile.execute`, for an input with a field at least
unfoldable pub update_profile : (db_now user : ℕ) → UpdateProfileInput → Action PublicUser
update_profile db_now user input = do
  u ← Users.update_user db_now user (profile_patch input)
  pure (to_public_user u)

pub record UserWithPresence : Type 0 where
  pub user : PublicUser
  pub is_online : Bool

-- `name_before` is the order that the database gives to `display_name`; `online` is what
-- `PresenceStore.listOnline` answers.
module _ (name_before : String → String → Bool) where
  unfoldable pub list_all : ℕ → World → List User
  list_all exclude w =
      sort_by (λ a b. name_before a.display_name b.display_name)
        (filter (λ u. not (u.id == exclude)) w.users)

  -- `ListUsers.execute`
  unfoldable pub list_users : (requester : ℕ) → List ℕ → Action (List UserWithPresence)
  list_users requester online = do
    users ← gets (list_all requester)
    pure (
        map (λ u. record { user = to_public_user u; is_online = any (λ i. i == u.id) online })
          users)

-- A change of the profile answers with the public part of the changed user, and keeps the e-mail,
-- the password and the verification of the stored one.
pub update_profile-keeps :
    (db_now user : ℕ) (input : UpdateProfileInput) (u : User) (w : World)
    → Users.find_by_id user w ≡ some u
    → let (r, w') = update_profile db_now user input w in
      let new = patched db_now (profile_patch input) u in
      (r ≡ ok (to_public_user new))
      × (Users.find_by_id user w' ≡ some new)
      × (new.email ≡ u.email)
      × (new.password_hash ≡ u.password_hash)
      × (new.email_verified_at ≡ u.email_verified_at)
unfolding update_profile update_user
update_profile-keeps db_now user input u w f =
    let by_id : User → Bool = λ v. v.id == user in
    let own : (u.id == user) ≡ true = find?-test by_id w.users u f in
    let stored : find? by_id (update by_id (patched db_now (profile_patch input)) w.users)
        ≡ some (patched db_now (profile_patch input) u) =
      ground (
        arith,
        find?-update by_id by_id (patched db_now (profile_patch input)) w.users u (λ v. refl) f,
        own,
      ) in
    rw stored (refl, stored, refl, refl, refl)
