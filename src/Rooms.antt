-- ===== src/Rooms.antt =====
-- The rooms: room-authorizer.ts and src/application/use-cases/rooms.
pub mod Authorizer
pub mod Creation
pub mod Membership
pub mod Policy
pub mod Deletion
pub mod Orderly
pub mod Invariant
pub mod MessagesInvariant
pub mod CreationInvariant
pub mod Reach
pub mod Shared
pub mod Queries
mod Tests
