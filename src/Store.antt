-- ===== src/Store.antt =====
-- internal/store: the tables and the statements on them.
pub mod Rows
pub mod Subscriptions
pub mod Partitions
pub mod Weeks
pub mod Versions
pub mod ScheduleLoad
pub mod Opening
pub mod Search
pub mod Like
pub mod Schedules
pub mod Reads
pub mod SoundLoad
pub mod SoundCommit
pub mod Sound
pub mod Flushing
pub mod SameVersion
pub mod Direct
pub mod Published
pub mod Claims
pub mod Settled
pub mod Replay
pub mod Finality
