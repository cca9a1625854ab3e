-- ===== src/Shopping.antt =====
-- internal/shopgraph: the buyer agent's run, from a request in words to a result.
pub mod World
pub mod Words
pub mod Route
pub mod State
pub mod Nodes
pub mod Settle
pub mod Run
pub mod Meanings
pub mod Choices
pub mod Steps
pub mod Basket
pub mod Ends
pub mod Results
mod Tests
