-- ===== src/Updates.antt =====
-- cmd/user: how updates become messages, and how each person's messages are handled in turn.
pub mod Lane
pub mod Order
pub mod Drain
pub mod Intake
pub mod Resume
pub mod Offset
mod Tests
