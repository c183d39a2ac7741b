-- ===== src/Controllers/Samples.antt =====
-- Concrete data for the runs of the tests.
use Prim.Native.String.{String}
use text.Mathlib.Text.{◌==◌ as str_eq}
use backend_java_spring_boot.Prelude.{
  ℕ, Bool, true, false, Option, none, some, List, [], ◌∷◌, if◌then◌else◌,
}
use backend_java_spring_boot.Domain.{member}
use backend_java_spring_boot.World.{World}
use backend_java_spring_boot.Json.{Zod}
use backend_java_spring_boot.Auth.Runtime.{Runtime, Draws}
use backend_java_spring_boot.Web.{Request, Site}
use backend_java_spring_boot.Web.Middlewares.{Limit}
use backend_java_spring_boot.Controllers.{Outside, Settings, Moment}

abbrev pub runtime : Runtime
runtime = record {
  sha256 = λ s. if str_eq s "old" then 1 else 2;
  sign_access = λ sub jti now. "access";
  hash_password = λ salt plain. plain;
  verify_password = λ plain hash. str_eq plain hash;
  normalize = λ s. s;
}

abbrev number_of : String → Option ℕ
number_of s = if str_eq s "7" then some 7 else if str_eq s "50" then some 50 else none

abbrev pub zod : Zod
zod = record {
  length_of = λ s. 8;
  trim = λ s. s;
  is_email = λ s. true;
  is_url = λ s. true;
  uuid_of = number_of;
  number_of_text = λ s. elim (number_of s) [ none ↦ 0 | some n ↦ n ];
  integer_of = number_of;
  issues = λ name j. name;
}

-- The access token of the user 1 is "good".
abbrev pub outside : Outside
outside = record {
  runtime = runtime;
  zod = zod;
  verify_access = λ s. if str_eq s "good" then some 1 else none;
  sql_uuid = number_of;
  show = λ n. "id";
  shown = number_of;
  name_before = λ a b. true;
  aws = record {
    signed_url = λ cfg command ttl. command.key;
    answers_head = λ cfg bucket key. true;
  };
  storage = record {
    endpoint = "https://s3";
    region = "auto";
    access_key_id = "id";
    secret_access_key = "key";
    bucket = "bucket";
    public_url = "https://s";
    force_path_style = true;
  };
}

abbrev limit_of : String → Bool → Limit
limit_of key by_user = record { key = key; max = 2; window_sec = 60; by_user = by_user }

abbrev pub settings : Settings
settings = record {
  config = record {
    refresh_pepper = "";
    refresh_ttl_sec = 60;
    grace_window_sec = 0;
    email_verify_url_base = "https://x/verify";
    email_reset_url_base = "https://x/reset";
  };
  cors_origins = "https://x" ∷ [];
  production = true;
  ws_ticket_ttl_sec = 30;
  register_limit = limit_of "register" false;
  login_limit = limit_of "login" false;
  refresh_limit = limit_of "refresh" false;
  default_limit = limit_of "default" true;
}

abbrev draws : Draws
draws = record { raw = "new"; family_id = 70; id = 30; jti = 31 }

abbrev pub moment : Moment
moment = record {
  clocks = record { now = 1000; db_now = 1000 };
  redis_now = 1000;
  later = 1;
  request_id = "request";
  register = record { salt = "s"; user_id = 9; session = draws; raw = "mail"; email_token_id = 8 };
  session = draws;
  salt = "s";
  link = record { raw = "link"; id = 6 };
  id = 90;
  ticket = 7;
}

-- The user 1 is in the room 7.
abbrev pub world : World
world = record {
  users = [];
  refresh_tokens = [];
  email_tokens = [];
  rooms = [];
  room_members =
      record {
        room_id = 7;
        user_id = 1;
        role = member;
        joined_at = 1;
        last_read_message_id = none;
        muted_until = none;
      }
      ∷ [];
  messages = [];
  published = [];
  mails = [];
}

abbrev pub site : Site
site = record {
  world = world;
  hits = [];
  tickets = [];
  presence = record { connections = []; published = [] };
}

-- Two calls of the user 1 were counted just now.
abbrev pub busy : Site
busy = record site {
  hits =
      record { key = "default:id"; score = 990 } ∷ record { key = "default:id"; score = 980 } ∷ [];
}

abbrev pub get : List (String × String) → List (String × String) → Request
get query headers = record {
  method = "GET";
  url = "https:" ∷ "" ∷ "h" ∷ "api" ∷ "v1" ∷ "rooms" ∷ "7" ∷ "messages" ∷ [];
  path = "" ∷ "ws" ∷ [];
  query = query;
  headers = headers;
  json = none;
}
