-- ===== src/Stats.antt =====
-- internal/proxy/stats.go, internal/proxy/stats_persist.go: the counters of the providers.
pub mod Window
pub mod Provider
pub mod Update
pub mod Reset
pub mod Persist
mod Tests
