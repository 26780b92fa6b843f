-- ===== src/Pipeline.antt =====
-- The normalisation pipeline (kafka-pipeline/src): its counters, its router and its worker.
pub mod Metrics
pub mod Router
pub mod Worker
pub mod Records
pub mod Counting
pub mod Delivery
pub mod Normal
pub mod Admin
mod Tests
