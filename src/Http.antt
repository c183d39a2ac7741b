-- ===== src/Http.antt =====
-- error-mapper.ts and rate-limit.ts
use Prim.Native.String.{String}
use backend_java_spring_boot.Prelude.{
  ℕ, ◌-◌, Bool, Option, none, some, List, [], ◌∷◌, if◌then◌else◌,
}
use backend_java_spring_boot.Domain.{
  Error, not_found, conflict, forbidden, validation, auth, rate_limit, fault, Result, ok, err,
  PublicUser, RoomDto, RoomWithMembersDto, RoomMemberDto, MessageDto,
}
use backend_java_spring_boot.Auth.Runtime.{Tokens}
use backend_java_spring_boot.Auth.Credentials.{Signed}
use backend_java_spring_boot.Profiles.{UserWithPresence}
use backend_java_spring_boot.Limits.{Window, RateLimitResult, consume}
pub mod TooMany

-- A value of a header: a text, or the decimal text of a number
pub data HeaderValue : Type 0 where
  words : String → HeaderValue
  number : ℕ → HeaderValue
  -- `rt=<token>; HttpOnly; Path=/api/v1/auth; SameSite=Lax; Max-Age=<max_age>`, and `; Secure`
  refresh_cookie : (token : String) (max_age : ℕ) (secure : Bool) → HeaderValue

-- What `Response.json` is given; a response without a body has `no_body`.
pub data Body : Type 0 where
  no_body : Body
  plain : String → Body
  error_body : String → Body
  signed_body : Signed → Body
  tokens_body : Tokens → Body
  user_body : PublicUser → Body
  users_body : List UserWithPresence → Body
  rooms_body : List RoomDto → Body
  room_body : RoomDto → Body
  room_members_body : RoomWithMembersDto → Body
  member_body : RoomMemberDto → Body
  messages_body : List MessageDto → Body
  message_body : MessageDto → Body
  ticket_body : ℕ → Body
  presigned_body : (url key : String) (expires_at : ℕ) (public_url : String) → Body
  public_url_body : String → Body
  -- the fields `status` and `detail` of the probes
  status_body : (status : String) (detail : Option String) → Body

pub record Response : Type 0 where
  pub status : ℕ
  pub body : Body
  pub headers : List (String × HeaderValue)

abbrev pub respond : ℕ → Body → Response
respond status body = record { status = status; body = body; headers = [] }

abbrev pub failure : ℕ → String → Response
failure status message = respond status (error_body message)

-- The `catch` of `errorMapper`
unfoldable pub mapped_error : Error → Response
mapped_error (validation m) = failure 400 m
mapped_error (auth m) = failure 401 m
mapped_error (forbidden m) = failure 403 m
mapped_error (not_found m) = failure 404 m
mapped_error (conflict m) = failure 409 m
mapped_error (rate_limit after) = record {
  status = 429;
  body = error_body "Too many requests";
  headers = ("Retry-After", number after) ∷ [];
}
mapped_error fault = failure 500 "Internal Server Error"

-- `errorMapper`, on what the rest of the chain came to
unfoldable pub error_mapper : Result Response → Response
unfolding mapped_error
error_mapper (ok r) = r
error_mapper (err e) = mapped_error e

-- The end of `rateLimit`, at the second `later`
abbrev pub limited : RateLimitResult → (later : ℕ) → Result Response → Result Response
limited result later rest =
    if result.allowed then rest else err (rate_limit (result.reset_at - later))

-- `rateLimit`, for the key of its subject, at the second `now`; `rest` is what `next` comes to
-- where it is called.
unfoldable pub rate_limited :
    (now later : ℕ) (key : String) (max window_sec : ℕ)
    → Result Response
    → List Window
    → Result Response × List Window
rate_limited now later key max window_sec rest ws = (
  limited (consume now key max window_sec ws).0 later rest,
  (consume now key max window_sec ws).1,
)
