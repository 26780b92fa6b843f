-- ===== src/Agent.antt =====
-- The endpoint agent (agent/crates): its offline buffer and the loop that drains it.
pub mod Buffer
pub mod Drain
pub mod Osquery
pub mod Queries
pub mod Command
pub mod Client
pub mod Collect
pub mod Config
pub mod Host
pub mod Isolation
pub mod Thrift
pub mod Main
