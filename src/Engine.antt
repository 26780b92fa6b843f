-- ===== src/Engine.antt =====
-- The rule engine: rule-engine/src.
pub mod Models
pub mod Category
pub mod Mitre
pub mod Transform
pub mod Scanner
pub mod Rules
pub mod Reload
pub mod Config
pub mod Metrics
pub mod Dedup
pub mod Suppression
pub mod Sink
pub mod Workers
pub mod Consumer
pub mod Batching
pub mod Scanning
pub mod Alerts
pub mod Handover
pub mod Flow
pub mod Health
mod Tests
