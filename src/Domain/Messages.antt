-- ===== src/Domain/Messages.antt =====
-- src/domain/entities/message.ts. The JSON of `attachmentMeta` is never read: it is kept as the
-- text that the database holds.
use Prim.Native.String.{String}
use backend_java_spring_boot.Prelude.{ℕ, Option}

pub record Message : Type 0 where
  pub id : ℕ
  pub room_id : ℕ
  pub sender_id : ℕ
  pub body : String
  pub client_message_id : Option String
  pub attachment_key : Option String
  pub attachment_meta : Option String
  pub edited_at : Option ℕ
  pub deleted_at : Option ℕ
  pub created_at : ℕ

pub record MessageDto : Type 0 where
  pub id : ℕ
  pub room_id : ℕ
  pub sender_id : ℕ
  pub body : String
  pub attachment_key : Option String
  pub attachment_meta : Option String
  pub edited_at : Option ℕ
  pub deleted_at : Option ℕ
  pub created_at : ℕ

abbrev pub to_message_dto : Message → MessageDto
to_message_dto m = record {
  id = m.id;
  room_id = m.room_id;
  sender_id = m.sender_id;
  body = m.body;
  attachment_key = m.attachment_key;
  attachment_meta = m.attachment_meta;
  edited_at = m.edited_at;
  deleted_at = m.deleted_at;
  created_at = m.created_at;
}
