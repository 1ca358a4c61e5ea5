-- ===== src/Old.antt =====
-- old/sources: the earlier versions of the programs.
pub mod Digest
pub mod Groups
pub mod Queue
pub mod Trigger
pub mod Analyze
pub mod Print
pub mod Gatherer
pub mod Stack
pub mod Caller
pub mod LibWrapper
pub mod Logs
pub mod Data
