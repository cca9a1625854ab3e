-- ===== src/Trading.antt =====
-- What a shop can observe of its own trade: internal/razorpay/sales.go, internal/trading and
-- internal/campaigns.
pub mod Sales
pub mod Facts
pub mod Totals
pub mod Reads
mod Tests
