-- ===== src/Buyer.antt =====
-- internal/buyer: purchases, approvals and refunds of a person's allowance.
pub mod World
pub mod Trail
pub mod Settlement
pub mod Approval
pub mod Purchase
pub mod Settling
pub mod Spending
pub mod Resumption
pub mod Refusals
pub mod Refund
pub mod Credit
pub mod Reversal
pub mod Owing
mod Tests
