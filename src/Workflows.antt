-- ===== src/Workflows.antt =====
-- src/codegenie/workflows: the ledger of a remediation run, its checkpoint chain and the replay.
pub mod Ledger
pub mod Checkpoints
pub mod Replay
pub mod Sqlite
mod Tests
