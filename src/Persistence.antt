-- ===== src/Persistence.antt =====
-- app/persistence: the rows of the database and the helpers of repo.py that change them.
pub mod Models
pub mod Repo
pub mod SystemBlock
