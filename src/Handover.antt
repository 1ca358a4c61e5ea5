-- ===== src/Handover.antt =====
-- From generate_prefetch_data of analyzer/analyzer.c to pf_init of prefetcher/prefetcher.c.
pub mod Lookup
pub mod Lists
pub mod Triggers
pub mod Logs
pub mod Data
pub mod Candidates
pub mod Launch
mod Tests
