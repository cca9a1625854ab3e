-- ===== src/Chat.antt =====
-- cmd/user: what the buyer's process makes of the messages of a chat.
pub mod Words
pub mod World
pub mod Talk
pub mod Commands
pub mod Money
pub mod Consent
pub mod Acts
pub mod Buttons
mod Tests
