-- ===== src/Api.antt =====
-- The API backend: api-backend/src.
pub mod Events
pub mod Batch
pub mod Receive
pub mod Socket
pub mod Agreement
pub mod Flushing
pub mod Frames
pub mod Errors
pub mod Settings
pub mod Auth
pub mod Listing
pub mod Nodes
pub mod Isolation
pub mod Triage
pub mod Routes
mod Tests
