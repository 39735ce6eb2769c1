-- ===== src/Core.antt =====
-- app/core: the freshness barrier.
pub mod Freshness
pub mod Examples
