-- ===== src/Ws.antt =====
-- The WebSocket side: src/infrastructure/ws.
pub mod Registry
pub mod Events
pub mod Synced
pub mod Seats
pub mod Keeping
pub mod Delivery
pub mod Races
pub mod Gateway
pub mod Socket
pub mod Router
pub mod Answers
pub mod Lifetime
pub mod Live
mod Tests
