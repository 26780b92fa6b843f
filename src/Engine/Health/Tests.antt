-- ===== src/Engine/Health/Tests.antt =====
-- The routes of an engine whose database is down.
use aigis_zero.Engine.Health.{AppState, counter, create_health_router}
use aigis_zero.Prelude.{false, none, some, ◌≡◌, refl, one_of, to_string}

abbrev down : AppState
down = record {
  pool = false;
  metrics = record {
    events_consumed = 12;
    events_scanned = 12;
    alerts_generated = 1;
    alerts_suppressed = 0;
    alerts_persisted = 1;
    rule_reloads_total = 0;
    rule_reload_failures_total = 0;
  };
}

lives : create_health_router down "/healthz" ≡ some (200, "OK")
unfolding create_health_router one_of
lives = refl

not_ready : create_health_router down "/readyz" ≡ some (503, "DATABASE_UNAVAILABLE")
unfolding create_health_router one_of
not_ready = refl

no_route : create_health_router down "/" ≡ none
unfolding create_health_router one_of
no_route = refl

counts :
    counter "c_total" "Things" 12 ≡ "# HELP c_total Things\n# TYPE c_total counter\nc_total 12\n"
unfolding to_string
counts = refl
