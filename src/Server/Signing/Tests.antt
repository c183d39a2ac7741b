-- ===== src/Server/Signing/Tests.antt =====
-- A session of the user 1, its access token within its time and after it.
use Prim.Native.String
use Prim.Native.String.{String}
use backend_java_spring_boot.Prelude.{◌≡◌, refl, ap, true, none, some, [], ◌∷◌, arith}
use backend_java_spring_boot.Domain.{User, to_public_user, ok}
use backend_java_spring_boot.World.{World}
use backend_java_spring_boot.Auth.Runtime.{Runtime, Draws, Clocks, Meta, Tokens}
use backend_java_spring_boot.Auth.Session.{create_session}
use backend_java_spring_boot.Auth.Signer.{SignerConfig}
use backend_java_spring_boot.Store.RefreshTokens
use backend_java_spring_boot.Limits.Sliding
use backend_java_spring_boot.Web.{Request}
use backend_java_spring_boot.Web.Compose.{compose}
use backend_java_spring_boot.Controllers.{Outside, Moment}
use backend_java_spring_boot.Controllers.Rooms
use backend_java_spring_boot.Controllers.Samples
use backend_java_spring_boot.Controllers.Samples.{settings, moment, site, get}
use backend_java_spring_boot.Server.{list_rooms, serve, route, reply_of, base_auth}
use backend_java_spring_boot.Server.Total.{finished}
use backend_java_spring_boot.Server.Guards.{counted, at_handler}
use backend_java_spring_boot.Server.Signing.{signing, verifying, stale_token_refused}
use backend_java_spring_boot.Server.SignedIn.{login_token_admits}
use backend_java_spring_boot.Auth.Credentials.{LoginInput, Signed, login, login_found}
use backend_java_spring_boot.Server.Signing.Codec.{
  codec, codec-IsJose, tally, tallied, tallied-tally,
}

abbrev outside : Outside
outside = record Samples.outside { show = tally; shown = λ s. some (tallied s) }

-- Tokens live for a second.
abbrev signer : SignerConfig
signer = record { access_secret = "secret"; access_ttl_sec = 1 }

abbrev ada : User
ada = record {
  id = 1;
  email = "ada@x";
  password_hash = "secret";
  display_name = "Ada";
  avatar_url = none;
  email_verified_at = none;
  created_at = 1;
  updated_at = 1;
}

abbrev world : World
world = record Samples.world { users = ada ∷ [] }

abbrev clocks : Clocks
clocks = record { now = 1000; db_now = 1000 }

abbrev draws : Draws
draws = record { raw = "new"; family_id = 70; id = 30; jti = 31 }

abbrev nowhere : Meta
nowhere = record { user_agent = none; ip = none }

abbrev runtime : Runtime
runtime = signing codec signer outside

abbrev tokens : Tokens
tokens = record { access_token = runtime.sign_access 1 31 1000; refresh_token = "new" }

abbrev after : World
after = (create_session runtime settings.config clocks draws 1 nowhere world).1

session : create_session runtime settings.config clocks draws 1 nowhere world ≡ (ok tokens, after)
unfolding create_session RefreshTokens.insert
session = refl

abbrev signed : Request
signed = get [] (("authorization", String.◌++◌ "Bearer " tokens.access_token) ∷ [])

abbrev here : Outside
here = verifying codec signer outside 1000

rooms_route :
    route here settings moment none list_rooms
    ≡ compose (base_auth here settings moment) (Rooms.list here moment)
unfolding route
rooms_route = refl

allowed : (counted here settings moment 1 signed site).0.allowed ≡ true
unfolding Sliding.consume
allowed = refl

abbrev ada_login : LoginInput
ada_login = record { email = "ada@x"; password = "secret"; meta = nowhere }

abbrev signed_in : Signed
signed_in = record { user = to_public_user ada; tokens = tokens }

logged_in : login runtime settings.config clocks draws ada_login world ≡ (ok signed_in, after)
unfolding login login_found create_session RefreshTokens.insert
logged_in = refl

login_token_admits_example :
    serve here settings moment none true (some list_rooms) signed site
    ≡ reply_of here settings moment (
        finished settings signed
          (Rooms.list here moment signed (at_handler here settings moment 1 signed site)))
login_token_admits_example =
    login_token_admits codec signer outside codec-IsJose (λ n. ap some (tallied-tally n))
      settings.config clocks draws ada_login world after signed_in logged_in settings moment none
      true list_rooms (Rooms.list here moment) signed site rooms_route refl refl (ground arith)
      allowed

-- A second after the session was opened
abbrev late : Moment
late = record moment { clocks = record { now = 2000; db_now = 2000 } }

stale_token_refused_example :
    (serve
      (verifying codec signer outside 2000)
      settings
      late
      none
      true
      (some list_rooms)
      signed
      site).1
    ≡ site
stale_token_refused_example =
    ap (λ r. r.1)
      (stale_token_refused codec signer outside codec-IsJose (λ n. ap some (tallied-tally n))
        settings.config clocks draws 1 nowhere world after tokens session settings late none true
        list_rooms signed site refl refl refl (ground arith)).1
