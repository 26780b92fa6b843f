-- ===== src/Fleet.antt =====
-- The fleet server: fleet-server/crates.
pub mod Database
pub mod Enrollment
pub mod Health
pub mod Known
pub mod Gateway
pub mod Ingest
pub mod Columns
pub mod Status
pub mod Access
pub mod Acks
mod Tests
