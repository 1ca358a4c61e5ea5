-- ===== src/Analyzer.antt =====
-- analyzer/: the program that turns the logs of a run into prefetch data.
pub mod Nodes
pub mod Queue
pub mod Merge
pub mod Burst
pub mod Groups
pub mod Trigger
pub mod Sort
pub mod Meta
pub mod Output
pub mod Scan
pub mod Blocks
pub mod Files
pub mod Print
pub mod Analyze
pub mod Passes
mod Tests
