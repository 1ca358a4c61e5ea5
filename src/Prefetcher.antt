-- ===== src/Prefetcher.antt =====
-- prefetcher/: the tracer that plants breakpoints and reads files ahead of the application.
pub mod Lists
pub mod Readahead
pub mod State
pub mod Breakpoint
pub mod Trace
pub mod Init
pub mod Runs
pub mod Start
pub mod Scan
mod Tests
