-- ===== src/Cmd.antt =====
-- cmd/ridewatch: what the commands compose of the other packages.
pub mod StaticLoad
pub mod Unloaded
pub mod Nights
pub mod OnceADay
pub mod Nightly
pub mod Active
pub mod Success
pub mod Sound
pub mod Direct
