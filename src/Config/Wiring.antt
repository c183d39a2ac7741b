-- ===== src/Config/Wiring.antt =====
-- What composition-root.ts, create-server.ts and the controllers take from env.ts. The model counts
-- in ℕ: where a number that it uses is negative, there are no settings.
use Prim.Native.String.{String}
use backend_java_spring_boot.Prelude.{ℕ, Bool, true, false, Option, none, some}
use backend_java_spring_boot.Auth.Runtime
use backend_java_spring_boot.Auth.Signer.{SignerConfig}
use backend_java_spring_boot.Storage.{StorageConfig}
use backend_java_spring_boot.Web.Middlewares.{Limit}
use backend_java_spring_boot.Controllers.{Settings}
use backend_java_spring_boot.Config.{ℤ, pos, negsuc, Env, ◌>>=◌, is_production}

abbrev pub natural : ℤ → Option ℕ
natural (pos n) = some n
natural (negsuc n) = none

-- `rateLimit(rateLimiter, key, max, windowSec, { keyBy })`
abbrev pub limit : (key : String) (by_user : Bool) (max window : ℤ) → Option Limit
limit key by_user max window = do
  max ← natural max
  window_sec ← natural window
  some (record { key = key; max = max; window_sec = window_sec; by_user = by_user })

-- The settings of the sessions, as `buildApp` hands them over
unfoldable pub config_of : Env → Option Runtime.Config
config_of env = do
  refresh_ttl_sec ← natural env.refresh_ttl
  grace_window_sec ← natural env.refresh_grace_window_secs
  some (record {
    refresh_pepper = env.jwt_refresh_pepper;
    refresh_ttl_sec = refresh_ttl_sec;
    grace_window_sec = grace_window_sec;
    email_verify_url_base = env.email_verify_url_base;
    email_reset_url_base = env.email_reset_url_base;
  })

-- The `config` of the signer
unfoldable pub signer_of : Env → Option SignerConfig
signer_of env = do
  access_ttl_sec ← natural env.access_ttl
  some (record { access_secret = env.jwt_access_secret; access_ttl_sec = access_ttl_sec })

-- The `Config` of the object storage
abbrev pub storage_of : Env → StorageConfig
storage_of env = record {
  endpoint = env.s3_endpoint;
  region = env.s3_region;
  access_key_id = env.s3_access_key;
  secret_access_key = env.s3_secret_key;
  bucket = env.s3_bucket;
  public_url = env.s3_public_url;
  force_path_style = env.s3_force_path_style;
}

unfoldable pub settings_of : Env → Option Settings
unfolding config_of
settings_of env = do
  config ← config_of env
  register_limit ← limit "register" false env.register_max env.register_window
  login_limit ← limit "login" false env.login_max env.login_window
  refresh_limit ← limit "refresh" false env.refresh_max env.refresh_window
  default_limit ← limit "default" true env.default_max env.default_window
  ws_ticket_ttl_sec ← natural env.ws_ticket_ttl
  some (record {
    config = config;
    cors_origins = env.cors_origins;
    production = is_production env.node_env;
    ws_ticket_ttl_sec = ws_ticket_ttl_sec;
    register_limit = register_limit;
    login_limit = login_limit;
    refresh_limit = refresh_limit;
    default_limit = default_limit;
  })
