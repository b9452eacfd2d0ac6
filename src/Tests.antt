-- ===== src/Tests.antt =====
-- Concrete inputs, and what the theorems say of them.
pub mod Numbers
pub mod Fixtures
pub mod Search
pub mod Nodes
pub mod Pipeline
pub mod Support
pub mod Session
pub mod Warmup
pub mod Runs
pub mod Wizard
pub mod Reports
