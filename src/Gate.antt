-- ===== src/Gate.antt =====
-- internal/gate/gate.go: the purchase authorisation policy, and its audited evaluation.
-- A time is a number of nanoseconds, 0 for Go's zero time; the reason codes are the constructors
-- of `Reason`, spelled out by `code`.
pub mod Defs
pub mod Policy
pub mod Audit
mod Tests
