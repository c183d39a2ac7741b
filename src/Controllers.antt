-- ===== src/Controllers.antt =====
-- What the controllers of src/infrastructure/http/controllers share: the settings of env.ts, what
-- they take from outside the repository, and what one request draws.
use Prim.Native.String.{String}
use text.Mathlib.Text.{◌==◌ as str_eq}
use backend_java_spring_boot.Prelude.{
  ℕ, Bool, ◌&&◌, not, Option, none, some, List, [], ◌∷◌, if◌then◌else◌,
}
use backend_java_spring_boot.Domain.{fault}
use backend_java_spring_boot.Json.{Zod}
use backend_java_spring_boot.Storage.{Aws, StorageConfig}
use backend_java_spring_boot.Auth.Runtime.{Runtime, Config, Clocks, Draws, Meta}
use backend_java_spring_boot.Auth.Credentials.{RegisterDraws}
use backend_java_spring_boot.Auth.EmailLinks.{LinkDraws}
use backend_java_spring_boot.Web.{Request, header, Web, or_raise}
use backend_java_spring_boot.Web.Middlewares.{Limit}
pub mod Cookies
pub mod Auth
pub mod Rooms
pub mod Messages
pub mod Users
pub mod Attachments
pub mod Pages
pub mod Samples
mod Tests

pub record Outside : Type 0 where
  pub runtime : Runtime
  pub zod : Zod
  -- the subject of the claims that `jwtVerify` accepts
  pub verify_access : String → Option ℕ
  -- a text that PostgreSQL reads as a UUID; the query raises for any other
  pub sql_uuid : String → Option ℕ
  -- the text of a UUID, and the UUID that has a text
  pub show : ℕ → String
  pub shown : String → Option ℕ
  -- the order of the database on texts
  pub name_before : String → String → Bool
  -- the object storage, with its settings
  pub aws : Aws
  pub storage : StorageConfig

pub record Settings : Type 0 where
  pub config : Config
  pub cors_origins : List String
  pub production : Bool
  pub ws_ticket_ttl_sec : ℕ
  pub register_limit : Limit
  pub login_limit : Limit
  pub refresh_limit : Limit
  pub default_limit : Limit

-- The clocks during a request, and what it draws.
pub record Moment : Type 0 where
  -- milliseconds of the application and of the database
  pub clocks : Clocks
  -- milliseconds of Redis
  pub redis_now : ℕ
  -- the second at which a refused request is told to retry
  pub later : ℕ
  -- `crypto.randomUUID()` of `compose`
  pub request_id : String
  pub register : RegisterDraws
  pub session : Draws
  pub salt : String
  pub link : LinkDraws
  -- `uuidv7()`
  pub id : ℕ
  -- `crypto.randomUUID()` of the ticket
  pub ticket : ℕ

-- `{ userAgent }`; no address is handed over.
abbrev pub meta_of : Request → Meta
meta_of req = record { user_agent = header "user-agent" req; ip = none }

-- The first match of `/\/name\/([^/]+)/` in the URL: what follows the part `name`, up to the next
-- slash.
abbrev pub part_after : String → List String → Option String
part_after name [] = none
part_after name (p ∷ []) = none
part_after name (p ∷ q ∷ rest) =
    if str_eq p name && not (str_eq q "") then some q else part_after name (q ∷ rest)

abbrev pub parse_uuid : Outside → Option String → Option ℕ
parse_uuid out none = none
parse_uuid out (some s) = out.sql_uuid s

-- The id of the URL after a part, as the first query of the use case reads it, which raises where
-- it is no UUID.
abbrev pub path_id : Outside → String → Request → Web ℕ
path_id out name req = or_raise (parse_uuid out (part_after name req.url)) fault
