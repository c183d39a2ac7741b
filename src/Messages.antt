-- ===== src/Messages.antt =====
-- The messages: src/application/use-cases/messages.
pub mod UseCases
pub mod Sending
pub mod Editing
pub mod Deleting
pub mod Pages
mod Tests
