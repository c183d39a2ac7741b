-- ===== src/Auth.antt =====
-- The sessions of src/application/use-cases/auth: how they are opened, refreshed, closed and
-- taken over by a password reset. Each use case is an `Action`; the values that the clock, the
-- random source and the database clock give during the call are its arguments.
pub mod Signer
pub mod Runtime
pub mod Session
pub mod Refresh
pub mod Credentials
pub mod EmailLinks
pub mod Linear
pub mod Families
pub mod Rotation
pub mod Overlap
pub mod Refusals
pub mod Takeover
pub mod Verification
pub mod Accounts
mod Tests
