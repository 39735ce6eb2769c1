-- ===== src/Orchestrator.antt =====
-- app/orchestrator.py: what one tick does, and how several symbols take turns.
pub mod Results
pub mod Desk
pub mod Reconcile
pub mod Placing
pub mod Orders
pub mod Triggers
pub mod Polling
pub mod Tick
pub mod Health
pub mod Scheduler
pub mod Portfolio
pub mod Examples
