-- ===== src/Domain.antt =====
-- The entities and the errors of src/domain. A UUID is a number, in the order in which
-- Postgres orders UUIDs, which is that of their texts as Postgres prints them; where the code
-- compares or joins the texts that requests give, `GivenId` keeps the text's own number. A SHA-256 digest is a number too, and a `Date`
-- is its milliseconds since the epoch.
mod Errors
mod Users
mod Tokens
mod Rooms
mod Messages
pub use Errors.*
pub use Users.*
pub use Tokens.*
pub use Rooms.*
pub use Messages.*
