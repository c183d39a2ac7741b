-- ===== src/Domain/Rooms.antt =====
-- src/domain/entities/room.ts and the shapes of src/application/dtos/room-dtos.ts. `dm_key` is
-- the sorted pair of texts that the code joins by ":".
use Prim.Native.String.{String}
use backend_java_spring_boot.Prelude.{ℕ, Option, List}

-- An id as a request spells it. Texts of ids are numbered in their order, and an id has the number
-- of its text as the database prints it; another spelling of the same id, with letters in upper
-- case, is another text.
pub record GivenId : Type 0 where
  pub id : ℕ
  pub text : ℕ

-- The id as the database prints it
abbrev pub printed : ℕ → GivenId
printed n = record { id = n; text = n }

pub data RoomKind : Type 0 where
  dm group : RoomKind

pub data RoomRole : Type 0 where
  owner admin member : RoomRole

pub record Room : Type 0 where
  pub id : ℕ
  pub kind : RoomKind
  pub name : Option String
  pub created_by : Option ℕ
  pub dm_key : Option (ℕ × ℕ)
  pub last_message_at : Option ℕ
  pub created_at : ℕ

pub record RoomMember : Type 0 where
  pub room_id : ℕ
  pub user_id : ℕ
  pub role : RoomRole
  pub joined_at : ℕ
  pub last_read_message_id : Option ℕ
  pub muted_until : Option ℕ

pub record RoomDto : Type 0 where
  pub id : ℕ
  pub kind : RoomKind
  pub name : Option String
  pub created_by : Option ℕ
  pub last_message_at : Option ℕ
  pub created_at : ℕ

pub record RoomMemberDto : Type 0 where
  pub user_id : ℕ
  pub role : RoomRole
  pub joined_at : ℕ
  pub last_read_message_id : Option ℕ
  pub muted_until : Option ℕ

-- `RoomDto` with the members
pub record RoomWithMembersDto : Type 0 where
  pub room : RoomDto
  pub members : List RoomMemberDto

abbrev pub to_room_dto : Room → RoomDto
to_room_dto r = record {
  id = r.id;
  kind = r.kind;
  name = r.name;
  created_by = r.created_by;
  last_message_at = r.last_message_at;
  created_at = r.created_at;
}

abbrev pub to_room_member_dto : RoomMember → RoomMemberDto
to_room_member_dto m = record {
  user_id = m.user_id;
  role = m.role;
  joined_at = m.joined_at;
  last_read_message_id = m.last_read_message_id;
  muted_until = m.muted_until;
}
