-- ===== src/Tests.antt =====
-- Runs at fixed inputs, and the theorems applied at concrete inputs.
mod Opened
mod Samples
mod Lookups
mod Nightly
mod Schedules
mod Dates
mod Engine
mod Tables
mod Alerts
mod Requests
mod Blobs
mod Retention
