-- ===== src/Api.antt =====
-- app/api: the operator's controls.
pub mod Control
pub mod Operation
pub mod PollEngine
pub mod Examples
