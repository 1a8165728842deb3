-- ===== src/Domain.antt =====
-- internal/domain: the vocabulary of the program and the GTFS rules for times.
pub mod Types
pub mod Static
pub mod Scan
pub mod Calendar
pub mod GtfsTime
pub mod WeekHours
