-- ===== src/Json/Schemas.antt =====
-- The schemas of src/application/dtos and of src/infrastructure/ws/envelope.ts, as functions from
-- JSON; a value that a schema refuses is `none`.
use Prim.Native.String.{String}
use backend_java_spring_boot.Prelude.{
  ℕ, ◌*◌, ◌&&◌, Option, none, some, List, [], length, leb, if◌then◌else◌,
}
use backend_java_spring_boot.Domain.{GivenId, RoomRole, admin, member}
use text.Mathlib.Text.{◌==◌ as str_eq}
use backend_java_spring_boot.Profiles.{UpdateProfileInput}
use backend_java_spring_boot.Json.{
  Json, Zod, ◌>>=◌, lookup, object, string, natural, check, optional, nullable, default, sized,
  at_least, at_most, then_trim, email, uuid, uuids, given_id, given_ids,
}

pub record Credentials : Type 0 where
  pub email : String
  pub password : String

pub record Registration : Type 0 where
  pub email : String
  pub password : String
  pub display_name : String

pub record NewPassword : Type 0 where
  pub token : String
  pub new_password : String

pub record GroupInput : Type 0 where
  pub name : String
  pub member_ids : List GivenId

pub record MemberInput : Type 0 where
  pub user_id : ℕ
  pub role : RoomRole

pub record MessageInput : Type 0 where
  pub body : String
  pub attachment_key : Option String
  pub client_message_id : Option String

pub record PageQuery : Type 0 where
  pub before : Option String
  pub limit : ℕ

pub record Upload : Type 0 where
  pub content_type : String
  pub size_bytes : ℕ

pub record Edit : Type 0 where
  pub message_id : ℕ
  pub body : String

pub record Mark : Type 0 where
  pub room_id : ℕ
  pub message_id : ℕ

abbrev pub max_upload : ℕ
max_upload = 50 * 1024 * 1024

-- `z.enum(["admin", "member"])`
abbrev pub role_of : Option String → Option RoomRole
role_of none = none
role_of (some s) =
    if str_eq s "admin" then some admin else if str_eq s "member" then some member else none

module _ (zod : Zod) where
  unfoldable pub register_schema : Json → Option Registration
  register_schema j = object j >>= λ o. email zod (lookup "email" o) >>= λ e.
      sized zod 8 128 (lookup "password" o) >>= λ p.
      then_trim zod (sized zod 1 64 (lookup "displayName" o)) >>= λ n.
      some (record { email = e; password = p; display_name = n })

  unfoldable pub login_schema : Json → Option Credentials
  login_schema j = object j >>= λ o. email zod (lookup "email" o) >>= λ e.
      at_least zod 1 (lookup "password" o) >>= λ p. some (record { email = e; password = p })

  unfoldable pub refresh_schema : Json → Option (Option String)
  refresh_schema j = object j >>= λ o. optional (at_least zod 1) (lookup "refreshToken" o)

  unfoldable pub verify_email_schema : Json → Option String
  verify_email_schema j = object j >>= λ o. at_least zod 1 (lookup "token" o)

  unfoldable pub request_password_reset_schema : Json → Option String
  request_password_reset_schema j = object j >>= λ o. email zod (lookup "email" o)

  unfoldable pub confirm_password_reset_schema : Json → Option NewPassword
  confirm_password_reset_schema j = object j >>= λ o. at_least zod 1 (lookup "token" o) >>= λ t.
      sized zod 8 128 (lookup "newPassword" o) >>= λ p.
      some (record { token = t; new_password = p })

  unfoldable pub create_direct_room_schema : Json → Option GivenId
  create_direct_room_schema j = object j >>= λ o. given_id zod (lookup "targetUserId" o)

  unfoldable pub create_group_room_schema : Json → Option GroupInput
  create_group_room_schema j = object j >>= λ o.
      then_trim zod (sized zod 1 128 (lookup "name" o)) >>= λ n.
      default [] (λ x. given_ids zod x >>= λ ids. check (leb (length ids) 99) ids)
        (lookup "memberIds" o)
      >>= λ ids. some (record { name = n; member_ids = ids })

  unfoldable pub add_member_schema : Json → Option MemberInput
  add_member_schema j = object j >>= λ o. uuid zod (lookup "userId" o) >>= λ u.
      default member (λ x. role_of (string x)) (lookup "role" o) >>= λ r.
      some (record { user_id = u; role = r })

  unfoldable pub remove_member_schema : Json → Option GivenId
  remove_member_schema j = object j >>= λ o. given_id zod (lookup "userId" o)

  -- `SendMessageSchema`, whose fields `ChatSendPayloadSchema` has too
  unfoldable pub send_message_schema : Json → Option MessageInput
  send_message_schema j = object j >>= λ o. default "" (at_most zod 4096) (lookup "body" o) >>= λ b.
      optional (at_most zod 512) (lookup "attachmentKey" o) >>= λ a.
      optional (at_most zod 128) (lookup "clientMessageId" o) >>= λ c.
      some (record { body = b; attachment_key = a; client_message_id = c })

  unfoldable pub edit_message_schema : Json → Option String
  edit_message_schema j = object j >>= λ o. sized zod 1 4096 (lookup "body" o)

  -- `z.coerce.number().int().min(1).max(100).default(50)` of a query's text
  abbrev pub limit_of : Option String → Option ℕ
  limit_of none = some 50
  limit_of (some s) = zod.integer_of s >>= λ n. check (leb 1 n && leb n 100) n

  -- `ListMessagesQuerySchema`, of the two parameters of the query
  unfoldable pub list_messages_query_schema : (before limit : Option String) → Option PageQuery
  list_messages_query_schema before limit =
      limit_of limit >>= λ n. some (record { before = before; limit = n })

  unfoldable pub update_profile_schema : Json → Option UpdateProfileInput
  update_profile_schema j = object j >>= λ o.
      optional (λ x. then_trim zod (sized zod 1 64 x)) (lookup "displayName" o) >>= λ n.
      optional (nullable (λ x. at_most zod 512 x >>= λ s. check (zod.is_url s) s))
        (lookup "avatarUrl" o)
      >>= λ a. some (record { display_name = n; avatar_url = a })

  unfoldable pub presign_attachment_schema : Json → Option Upload
  presign_attachment_schema j = object j >>= λ o. sized zod 1 128 (lookup "contentType" o) >>= λ t.
      natural (lookup "sizeBytes" o) >>= λ n.
      check (leb 1 n && leb n max_upload) (record { content_type = t; size_bytes = n })

  -- `ChatSubscribePayloadSchema` and `ChatUnsubscribePayloadSchema`
  unfoldable pub room_ids_schema : Json → Option (List ℕ)
  room_ids_schema j = object j >>= λ o. uuids zod (lookup "roomIds" o) >>= λ ids.
      check (leb 1 (length ids) && leb (length ids) 50) ids

  -- The field `roomId` of `ChatSendPayloadSchema`, `ChatReadPayloadSchema` and
  -- `ChatTypingPayloadSchema`
  unfoldable pub room_id_schema : Json → Option ℕ
  room_id_schema j = object j >>= λ o. uuid zod (lookup "roomId" o)

  unfoldable pub chat_edit_schema : Json → Option Edit
  chat_edit_schema j = object j >>= λ o. uuid zod (lookup "messageId" o) >>= λ id.
      sized zod 1 4096 (lookup "body" o) >>= λ b. some (record { message_id = id; body = b })

  unfoldable pub chat_delete_schema : Json → Option ℕ
  chat_delete_schema j = object j >>= λ o. uuid zod (lookup "messageId" o)

  unfoldable pub chat_read_schema : Json → Option Mark
  chat_read_schema j = object j >>= λ o. uuid zod (lookup "roomId" o) >>= λ r.
      uuid zod (lookup "messageId" o) >>= λ m. some (record { room_id = r; message_id = m })
