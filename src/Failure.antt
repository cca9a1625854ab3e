-- ===== src/Failure.antt =====
-- internal/failure/failure.go: which layer an error is attributed to, and how it is explained.
pub mod Hints
pub mod Explain
pub mod Named
pub mod Layers
pub mod Tests
