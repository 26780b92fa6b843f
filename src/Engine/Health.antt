-- ===== src/Engine/Health.antt =====
-- rule-engine/src/health.rs with format_prometheus of metrics.rs: the routes that tell whether the
-- engine lives, whether its database answers, and what it has counted.
mod Tests
use aigis_zero.Engine.Metrics.{EngineMetrics}
use aigis_zero.Prelude.{
  ℕ, ◌<>◌, String, Bool, [], ◌∷◌, Option, none, some, to_string, one_of, if◌then◌else◌,
}

-- The three lines of a counter.
abbrev pub counter : String → String → ℕ → String
counter name help value =
    "# HELP "
    <> (name
        <> (" "
            <> (help
                <> ("\n# TYPE "
                    <> (name <> (" counter\n" <> (name <> (" " <> (to_string value <> "\n")))))))))

unfoldable pub format_prometheus : EngineMetrics → String
format_prometheus m =
    counter "aigis_events_consumed_total" "Total number of events consumed from Kafka"
      m.events_consumed
    <> (counter "aigis_events_scanned_total" "Total number of events evaluated by YARA-X"
          m.events_scanned
        <> (counter "aigis_alerts_generated_total" "Total number of alerts generated"
              m.alerts_generated
            <> (counter "aigis_alerts_suppressed_total"
                  "Total number of duplicate alerts suppressed" m.alerts_suppressed
                <> (counter "aigis_alerts_persisted_total"
                      "Total number of alerts persisted to sinks" m.alerts_persisted
                    <> (counter "aigis_rule_reloads_total"
                          "Total number of successful rule hot-reloads" m.rule_reloads_total
                        <> counter "aigis_rule_reload_failures_total"
                            "Total number of failed rule hot-reloads"
                            m.rule_reload_failures_total)))))

-- The pool gives a connection, or not.
pub record AppState : Type 0 where
  pub pool : Bool
  pub metrics : EngineMetrics

abbrev pub liveness_handler : ℕ × String
liveness_handler = (200, "OK")

abbrev pub readiness_handler : AppState → ℕ × String
readiness_handler state = if state.pool then (200, "READY") else (503, "DATABASE_UNAVAILABLE")

abbrev pub metrics_handler : AppState → ℕ × String
metrics_handler state = (200, format_prometheus state.metrics)

-- The answer to a GET of a path; none where no route is, which axum answers with 404.
unfoldable pub create_health_router : AppState → String → Option (ℕ × String)
create_health_router state path =
    if one_of ("/health/live" ∷ "/healthz" ∷ []) path
    then some liveness_handler
    else if one_of ("/health/ready" ∷ "/readyz" ∷ []) path
    then some (readiness_handler state)
    else if one_of ("/metrics" ∷ []) path
    then some (metrics_handler state)
    else none
