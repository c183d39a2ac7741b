-- ===== src/Server/SignedIn.antt =====
-- From a login to the handlers behind `baseAuth`.
use Prim.Native.String.{String}
use text.Mathlib.Text.{◌==◌ as str_eq}
use backend_java_spring_boot.Prelude.{
  ℕ, ◌+◌, ◌<◌, ◌≡◌, ap, Bool, true, false, Bool-cases, Option-cases, inl, inr, Option, some, arith,
}
use backend_java_spring_boot.Domain.{PublicUser, to_public_user, Result, ok, err}
use backend_java_spring_boot.World.{World, Action, continue_with}
use backend_java_spring_boot.World
use backend_java_spring_boot.Store.Users
use backend_java_spring_boot.Auth.Runtime.{Runtime, Config, Clocks, Draws, Tokens}
use backend_java_spring_boot.Auth.Session.{create_session}
use backend_java_spring_boot.Auth.Credentials.{LoginInput, Signed, login, login_found}
use backend_java_spring_boot.Auth.Signer.{Jose, IsJose, SignerConfig, second_of}
use backend_java_spring_boot.Web.{Request, Site}
use backend_java_spring_boot.Web.Compose.{RouteHandler, compose}
use backend_java_spring_boot.Controllers.{Outside, Settings, Moment}
use backend_java_spring_boot.Server.{Endpoint, base_auth, route, serve, reply_of}
use backend_java_spring_boot.Server.Total.{finished}
use backend_java_spring_boot.Server.Guards.{counted, at_handler}
use backend_java_spring_boot.Server.Signing.{signing, verifying, Presents, session_token_admits}

signed-parts :
    (r : Result Tokens × World) (user : PublicUser) (signed : Signed) (w : World)
    → continue_with r (λ tokens. World.pure (record { user = user; tokens = tokens }))
      ≡ (ok signed, w)
    → (r ≡ (ok signed.tokens, w)) × (signed.user ≡ user)
signed-parts (ok tokens, v) user signed w h = (cc, cc)
signed-parts (err e, v) user signed w h = ground arith

-- A login that succeeds opens a session for the user that it answers with.
login-session :
    (rt : Runtime) (cfg : Config) (clocks : Clocks) (draws : Draws) (input : LoginInput)
    (w w' : World) (signed : Signed)
    → login rt cfg clocks draws input w ≡ (ok signed, w')
    → create_session rt cfg clocks draws signed.user.id input.meta w ≡ (ok signed.tokens, w')
unfolding login login_found
login-session rt cfg clocks draws input w w' signed h =
    elim (Option-cases (Users.find_by_email (rt.normalize input.email) w)) [
      | inl unknown ↦ absurd (cc (rw unknown at h))
      | inr (u, found) ↦
          let h' = rw found at h in
          elim (Bool-cases (rt.verify_password input.password u.password_hash)) [
            | inr wrong ↦ absurd (cc (rw wrong at h'))
            | inl good ↦
                let (done, who) =
                  signed-parts (create_session rt cfg clocks draws u.id input.meta w)
                    (to_public_user u) signed w' (rw good at h') in
                rw (ap (λ p. p.id) who) done
          ]
    ]

module _ (jose : Jose) (cfg : SignerConfig) (out : Outside) (good : IsJose jose)
    (shows : (n : ℕ) → out.shown (out.show n) ≡ some n) where
  -- With a signer that keeps jose's promises, where the text of a UUID reads as that UUID: after a
  -- login that succeeds, a request, no preflight, for a route behind `baseAuth`, with the access
  -- token of the answer, made in a second before the lifetime of the token is over and with some of
  -- the user's limit left, is what the handler makes of it for the user who logged in.
  pub login_token_admits :
      (sessions : Config) (clocks : Clocks) (draws : Draws) (input : LoginInput) (w w' : World)
      (signed : Signed)
      → login (signing jose cfg out) sessions clocks draws input w ≡ (ok signed, w')
      → (set : Settings) (moment : Moment) (down : Option String) (accepts : Bool) (e : Endpoint)
        (h : RouteHandler) (req : Request) (site : Site)
      → let here = verifying jose cfg out moment.clocks.now in
        route here set moment down e ≡ compose (base_auth here set moment) h
        → str_eq req.method "OPTIONS" ≡ false
        → Presents req signed.tokens
        → second_of moment.clocks.now < second_of clocks.now + cfg.access_ttl_sec
        → (counted here set moment signed.user.id req site).0.allowed ≡ true
        → serve here set moment down accepts (some e) req site
          ≡ reply_of here set moment
              (finished set req (h req (at_handler here set moment signed.user.id req site)))
  login_token_admits sessions clocks draws input w w' signed done =
      session_token_admits jose cfg out good shows sessions clocks draws signed.user.id input.meta w
        w' signed.tokens
        (login-session (signing jose cfg out) sessions clocks draws input w w' signed done)
