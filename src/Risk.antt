-- ===== src/Risk.antt =====
-- app/risk: the engine that alone approves orders, its limits and its cost gate.
pub mod CostModel
pub mod Checks
pub mod Engine
pub mod Examples
