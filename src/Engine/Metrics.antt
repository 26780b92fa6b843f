-- ===== src/Engine/Metrics.antt =====
-- rule-engine/src/metrics.rs: the counters, atomics of 64 bits that wrap around.
use aigis_zero.Prelude.{ℕ, ◌+◌, ◌%◌, ◌^◌}

-- `fetch_add` on an `AtomicU64`
abbrev pub fetch_add : ℕ → ℕ → ℕ
fetch_add a n = (a + n) % 2 ^ 64

pub record EngineMetrics : Type 0 where
  pub events_consumed : ℕ
  pub events_scanned : ℕ
  pub alerts_generated : ℕ
  pub alerts_suppressed : ℕ
  pub alerts_persisted : ℕ
  pub rule_reloads_total : ℕ
  pub rule_reload_failures_total : ℕ

abbrev pub inc_consumed : EngineMetrics → EngineMetrics
inc_consumed m = record m { events_consumed = fetch_add m.events_consumed 1 }

abbrev pub inc_scanned : EngineMetrics → EngineMetrics
inc_scanned m = record m { events_scanned = fetch_add m.events_scanned 1 }

abbrev pub inc_alerts_generated : EngineMetrics → EngineMetrics
inc_alerts_generated m = record m { alerts_generated = fetch_add m.alerts_generated 1 }

abbrev pub inc_alerts_suppressed : EngineMetrics → EngineMetrics
inc_alerts_suppressed m = record m { alerts_suppressed = fetch_add m.alerts_suppressed 1 }

abbrev pub inc_alerts_persisted : ℕ → EngineMetrics → EngineMetrics
inc_alerts_persisted n m = record m { alerts_persisted = fetch_add m.alerts_persisted n }

abbrev pub inc_rule_reloads : EngineMetrics → EngineMetrics
inc_rule_reloads m = record m { rule_reloads_total = fetch_add m.rule_reloads_total 1 }

abbrev pub inc_rule_reload_failures : EngineMetrics → EngineMetrics
inc_rule_reload_failures m = record m {
  rule_reload_failures_total = fetch_add m.rule_reload_failures_total 1;
}
