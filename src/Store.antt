-- ===== src/Store.antt =====
-- The Postgres repositories of src/infrastructure/db/repositories, over the tables and the
-- constraints of migrations/. A statement that breaks a constraint raises, and so does
-- `mapRow(row!)` where no row came back.
pub mod Users
pub mod RefreshTokens
pub mod EmailTokens
pub mod Rooms
pub mod Messages
