-- ===== src/Auth/Tests.antt =====
-- Concrete runs of the sessions and accounts.
use Prim.Native.String.{String}
use text.Mathlib.Text.{◌==◌ as str_eq}
use text.Mathlib.TextPositions.{eq_refl}
use backend_java_spring_boot.Prelude.{
  ℕ, ◌≤◌, ◌≡◌, refl, ◌⊎◌, true, Option, none, some, [], ◌∷◌, arith, if◌then◌else◌,
}
use backend_java_spring_boot.Domain.{
  User, to_public_user, RefreshToken, EmailToken, EmailTokenKind, auth, ok, err,
}
use backend_java_spring_boot.World.{World}
use backend_java_spring_boot.Store.Users
use backend_java_spring_boot.Store.RefreshTokens.{insert, insert_allowed, mark_revoked}
use backend_java_spring_boot.Store.EmailTokens
use backend_java_spring_boot.Auth.Runtime.{Runtime, Config, Clocks, Meta, Draws, HashesVerify}
use backend_java_spring_boot.Auth.Session.{opened, create_session, revoke_session}
use backend_java_spring_boot.Auth.Refresh.{refresh_session, presented_at, rotate_token, successor}
use backend_java_spring_boot.Auth.Overlap.{LiveIn, refresh_after_lookup, overlapping_refreshes_fork}
use backend_java_spring_boot.Auth.Credentials.{
  LoginInput, RegisterInput, RegisterDraws, Signed, login, register, sign_in_registered,
  send_verification_email,
}
use backend_java_spring_boot.Auth.EmailLinks.{
  LinkDraws, confirm_password_reset, request_email_verification, confirm_email_verification,
}
use backend_java_spring_boot.Auth.Verification.{verification_round_trip}
use backend_java_spring_boot.Auth.Linear.{live_in}
use backend_java_spring_boot.Auth.Rotation.{
  IsCurrent, IsReplay, refresh_rotates, replay_revokes_family,
}
use backend_java_spring_boot.Auth.Refusals.{IsRetry, refresh_sound, logout_ends_session}
use backend_java_spring_boot.Auth.Takeover.{password_reset_takes_over, reset_link_single_use}
use backend_java_spring_boot.Auth.Accounts.{accounts, register-login}

-- A hash that tells the tokens of the tests apart.
abbrev code : String → ℕ
code s =
    if str_eq s "old"
    then 1
    else if str_eq s "live"
    then 2
    else if str_eq s "fresh"
    then 3
    else if str_eq s "link"
    then 4
    else 5

abbrev runtime : Runtime
runtime = record {
  sha256 = code;
  sign_access = λ sub jti now. "access";
  hash_password = λ salt plain. plain;
  verify_password = λ plain hash. str_eq plain hash;
  normalize = λ s. s;
}

abbrev config : Config
config = record {
  refresh_pepper = "";
  refresh_ttl_sec = 60;
  grace_window_sec = 0;
  email_verify_url_base = "https://x/verify";
  email_reset_url_base = "https://x/reset";
}

abbrev clock : Clocks
clock = record { now = 1000; db_now = 1000 }

abbrev browser : Meta
browser = record { user_agent = some "browser"; ip = none }

abbrev draws : Draws
draws = record { raw = "fresh"; family_id = 70; id = 30; jti = 31 }

abbrev ada : User
ada = record {
  id = 1;
  email = "ada@x";
  password_hash = "secret";
  display_name = "Ada";
  avatar_url = none;
  email_verified_at = none;
  created_at = 1;
  updated_at = 1;
}

-- It was rotated to `live_token`.
abbrev old_token : RefreshToken
old_token = record {
  id = 10;
  user_id = 1;
  token_hash = 1;
  family_id = 7;
  parent_id = none;
  replaced_by_id = some 20;
  user_agent = none;
  ip = none;
  expires_at = 5000;
  revoked_at = some 500;
  created_at = 1;
}

abbrev live_token : RefreshToken
live_token = record {
  id = 20;
  user_id = 1;
  token_hash = 2;
  family_id = 7;
  parent_id = some 10;
  replaced_by_id = none;
  user_agent = none;
  ip = none;
  expires_at = 5000;
  revoked_at = none;
  created_at = 500;
}

abbrev reset_link : EmailToken
reset_link = record {
  id = 40;
  user_id = 1;
  kind = EmailTokenKind.reset;
  token_hash = 4;
  expires_at = 2000;
  used_at = none;
}

abbrev site : World
site = record {
  users = ada ∷ [];
  refresh_tokens = live_token ∷ old_token ∷ [];
  email_tokens = reset_link ∷ [];
  rooms = [];
  room_members = [];
  messages = [];
  published = [];
  mails = [];
}

current : IsCurrent runtime config 1000 "live" live_token site
current = record { found = refl; live = refl; unexpired = omega arith }

replay : IsReplay runtime config 1000 "old" old_token site
replay = record {
  found = refl;
  revoked_at = 500;
  revoked_then = refl;
  rotated = refl;
  no_grace = refl;
}

-- The draws of a second refresh that overlaps
abbrev other_draws : Draws
other_draws = record { raw = "other"; family_id = 71; id = 40; jti = 41 }

room_for_both :
    insert_allowed
      (successor runtime config clock other_draws live_token browser)
      (refresh_session runtime config clock draws "live" browser site).1
    ≡ true
unfolding refresh_session presented_at rotate_token insert mark_revoked
room_for_both = refl

overlapping_refreshes_fork_example :
    let w1 = (refresh_session runtime config clock draws "live" browser site).1 in
    LiveIn 7 30 (refresh_after_lookup runtime config clock other_draws live_token browser w1).1
overlapping_refreshes_fork_example =
    (overlapping_refreshes_fork runtime config clock clock draws other_draws "live" browser browser
      live_token site current (omega arith) refl room_for_both).2

abbrev verify_draws : LinkDraws
verify_draws = record { raw = "hello"; id = 99 }

abbrev soon : Clocks
soon = record { now = 2000; db_now = 2100 }

verification_round_trip_example :
    let w1 = (request_email_verification runtime config clock verify_draws 1 site).1 in
    Users.find_by_id 1 (confirm_email_verification runtime config soon "hello" w1).1
    ≡ some (record ada { email_verified_at = some 2000; updated_at = 2100 })
verification_round_trip_example =
    (verification_round_trip runtime config clock soon soon verify_draws verify_draws ada site refl
      refl refl (omega arith) (omega arith)).3

replay_revokes_family_example :
    let (r, w') = refresh_session runtime config clock draws "old" browser site in
    (r ≡ err (auth "Invalid refresh token")) × (live_in 7 w'.refresh_tokens ≡ 0)
replay_revokes_family_example =
    replay_revokes_family runtime config clock draws "old" browser old_token site 7 replay

answered :
    (refresh_session runtime config clock draws "live" browser site).0
    ≡ ok (record { access_token = "access"; refresh_token = "fresh" })
answered =
    (refresh_rotates runtime config clock draws "live" browser live_token site current refl).0

refresh_sound_example :
    (c : RefreshToken) × (IsCurrent runtime config 1000 "live" c site
      ⊎ IsRetry runtime config 1000 "live" c site)
refresh_sound_example = refresh_sound runtime config clock draws "live" browser site answered

logout_ends_session_example :
    let w' = (revoke_session runtime config clock "live" site).1 in
    (refresh_session runtime config clock draws "live" browser w'
      ≡ (err (auth "Invalid refresh token"), w'))
    × (revoke_session runtime config clock "live" w' ≡ (ok tt, w'))
logout_ends_session_example =
    logout_ends_session runtime config clock clock draws "live" browser live_token site refl refl

password_reset_takes_over_example :
    (confirm_password_reset runtime config clock "salt" "link" "changed" site).0 ≡ ok tt
password_reset_takes_over_example =
    (password_reset_takes_over runtime config clock "salt" "link" "changed"
      (record reset_link { used_at = none }) ada site 1 refl refl).0

reset_link_single_use_example :
    let w' = (confirm_password_reset runtime config clock "salt" "link" "changed" site).1 in
    confirm_password_reset runtime config clock "pepper" "link" "again" w'
    ≡ (err (auth "Invalid or expired reset token"), w')
reset_link_single_use_example =
    reset_link_single_use runtime config clock clock "salt" "pepper" "link" "changed" "again" site
      (omega arith)

abbrev bob : RegisterInput
bob = record { email = "bob@x"; password = "hidden"; display_name = "Bob"; meta = browser }

abbrev bob_draws : RegisterDraws
bob_draws = record {
  salt = "salt";
  user_id = 2;
  session = draws;
  raw = "verify";
  email_token_id = 41;
}

abbrev again : Draws
again = record { raw = "later"; family_id = 71; id = 32; jti = 33 }

site-accounts : (e : String) → accounts e site.users ≤ 1
site-accounts e = ground arith

hashes : HashesVerify runtime
hashes salt plain = eq_refl plain

abbrev bob_stored : User
bob_stored = record {
  id = 2;
  email = "bob@x";
  password_hash = "hidden";
  display_name = "Bob";
  avatar_url = none;
  email_verified_at = none;
  created_at = 1000;
  updated_at = 1000;
}

abbrev bob_signed : Signed
bob_signed = record {
  user = to_public_user bob_stored;
  tokens = record { access_token = "access"; refresh_token = "fresh" };
}

bob_registered : (register runtime config clock bob_draws bob site).0 ≡ ok bob_signed
unfolding register Users.create sign_in_registered create_session insert send_verification_email
    EmailTokens.insert
bob_registered = refl

bob_insertable :
    insert_allowed
      (opened runtime config clock again 2 browser)
      (register runtime config clock bob_draws bob site).1
    ≡ true
unfolding register Users.create sign_in_registered create_session insert send_verification_email
    EmailTokens.insert
bob_insertable = refl

register-login_example :
    (login runtime config clock again
      (record { email = "bob@x"; password = "hidden"; meta = browser })
      (register runtime config clock bob_draws bob site).1).0
    ≡ ok (record {
      user = to_public_user bob_stored;
      tokens = record { access_token = "access"; refresh_token = "later" };
    })
register-login_example =
    register-login runtime config clock clock bob_draws again bob browser site hashes bob_registered
      bob_insertable

abbrev ada_login : LoginInput
ada_login = record { email = "ada@x"; password = "secret"; meta = browser }

abbrev stored_hash : Option User → String
stored_hash none = ""
stored_hash (some u) = u.password_hash
