-- ===== src/Negotiation.antt =====
-- internal/negotiation: the merchant's offers and the counter-offer state machine.
pub mod Conditions
pub mod Offer
pub mod Session
pub mod Orchestrator
pub mod Uplift
pub mod Quote
pub mod Server
pub mod Handlers
pub mod Floor
pub mod Lifecycle
pub mod Concession
pub mod Rails
pub mod Writes
mod Tests
mod ServerTests
pub mod Browse
pub mod Shelf
mod BrowseTests
