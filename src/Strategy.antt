-- ===== src/Strategy.antt =====
-- app/strategy: signals, and the engines that make them.
pub mod Schemas
pub mod Slots
pub mod Aggregator
pub mod Engine
pub mod Examples
