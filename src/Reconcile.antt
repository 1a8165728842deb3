-- ===== src/Reconcile.antt =====
-- internal/reconcile: the engine that turns snapshots into stop events and live state.
pub mod Cache
pub mod Coherence
pub mod ServiceDate
pub mod Trip
pub mod Delays
pub mod Live
pub mod Mirror
pub mod Upcoming
pub mod Engine
pub mod Process
pub mod Failures
