-- ===== src/Pager.antt =====
-- The pager of src/storage.rs: write groups, savepoints, checkpoints and recovery over the data
-- file, the WAL, and three maps of pages in memory.
pub mod State
pub mod Access
pub mod Groups
pub mod Views
pub mod Reading
pub mod Writing
pub mod Undo
pub mod Session
pub mod Abort
pub mod Raw
pub mod Batches
pub mod SortedBatches
pub mod Durable
pub mod Checkpoints
pub mod Commits
pub mod FailedCommits
pub mod Upkeep
pub mod Contents
pub mod Implementing
pub mod Histories
mod Tests
