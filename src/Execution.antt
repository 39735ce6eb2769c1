-- ===== src/Execution.antt =====
-- app/execution: fills, the ledger that makes them count once, and the simulated exchange.
pub mod Base
pub mod Books
pub mod FillLedger
pub mod FillService
pub mod Reconciliation
pub mod BybitDemo
pub mod PaperLocal
pub mod Paging
pub mod Funding
pub mod Samples
