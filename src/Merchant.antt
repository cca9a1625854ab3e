-- ===== src/Merchant.antt =====
-- internal/marketgraph: the facts that the merchant's strategist sees, and the guard on its price.
pub mod Graph
pub mod Guard
mod Tests
