-- ===== src/Static.antt =====
-- internal/gtfsstatic: the parser of static GTFS zips.
pub mod Table
pub mod Rows
pub mod Zip
pub mod Script
pub mod Performs
pub mod MetaFirst
pub mod ByName
