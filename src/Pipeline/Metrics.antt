-- ===== src/Pipeline/Metrics.antt =====
-- kafka-pipeline/src/metrics.rs: the throughput counters and their text. `fetch_add` on an `AtomicU64`
-- wraps.
use aigis_zero.Prelude.{
  ℕ, ◌+◌, ◌%◌, ◌^◌, String, ◌≡◌, arith, if◌then◌else◌, str_eq, ◌<>◌, to_string,
}

pub record PipelineMetrics : Type 0 where
  pub events_consumed : ℕ
  pub events_routed_process : ℕ
  pub events_routed_network : ℕ
  pub events_routed_file : ℕ
  pub events_routed_auth : ℕ
  pub events_routed_dlq : ℕ
  pub routing_errors : ℕ

-- `fetch_add(1)` on an `AtomicU64`
abbrev pub fetch_add : ℕ → ℕ
fetch_add n = (n + 1) % 2 ^ 64

-- `PipelineMetrics::new`
abbrev pub new : PipelineMetrics
new = record {
  events_consumed = 0;
  events_routed_process = 0;
  events_routed_network = 0;
  events_routed_file = 0;
  events_routed_auth = 0;
  events_routed_dlq = 0;
  routing_errors = 0;
}

abbrev pub inc_consumed : PipelineMetrics → PipelineMetrics
inc_consumed m = record m { events_consumed = fetch_add m.events_consumed }

unfoldable pub inc_routed : String → PipelineMetrics → PipelineMetrics
inc_routed target_topic m =
    if str_eq target_topic "aigis.events.process"
    then record m { events_routed_process = fetch_add m.events_routed_process }
    else if str_eq target_topic "aigis.events.network"
    then record m { events_routed_network = fetch_add m.events_routed_network }
    else if str_eq target_topic "aigis.events.file"
    then record m { events_routed_file = fetch_add m.events_routed_file }
    else if str_eq target_topic "aigis.events.auth"
    then record m { events_routed_auth = fetch_add m.events_routed_auth }
    else record m { events_routed_dlq = fetch_add m.events_routed_dlq }

abbrev pub inc_errors : PipelineMetrics → PipelineMetrics
inc_errors m = record m { routing_errors = fetch_add m.routing_errors }

-- `PipelineMetrics::format_prometheus`
unfoldable pub format_prometheus : PipelineMetrics → String
format_prometheus m =
    "# HELP aigis_pipeline_events_consumed_total Total raw events consumed by normalization pipeline\n"
    <> "# TYPE aigis_pipeline_events_consumed_total counter\n"
    <> "aigis_pipeline_events_consumed_total "
    <> to_string m.events_consumed
    <> "\n"
    <> "# HELP aigis_pipeline_events_routed_total Total events routed to typed topics\n"
    <> "# TYPE aigis_pipeline_events_routed_total counter\n"
    <> "aigis_pipeline_events_routed_total{topic=\"aigis.events.process\"} "
    <> to_string m.events_routed_process
    <> "\n"
    <> "aigis_pipeline_events_routed_total{topic=\"aigis.events.network\"} "
    <> to_string m.events_routed_network
    <> "\n"
    <> "aigis_pipeline_events_routed_total{topic=\"aigis.events.file\"} "
    <> to_string m.events_routed_file
    <> "\n"
    <> "aigis_pipeline_events_routed_total{topic=\"aigis.events.auth\"} "
    <> to_string m.events_routed_auth
    <> "\n"
    <> "aigis_pipeline_events_routed_total{topic=\"aigis.events.dlq\"} "
    <> to_string m.events_routed_dlq
    <> "\n"
    <> "# HELP aigis_pipeline_routing_errors_total Total unparsable event errors encountered\n"
    <> "# TYPE aigis_pipeline_routing_errors_total counter\n"
    <> "aigis_pipeline_routing_errors_total "
    <> to_string m.routing_errors
    <> "\n"

-- The routed counters together, in the arithmetic of one counter.
abbrev pub routed_total : PipelineMetrics → ℕ
routed_total m =
    (m.events_routed_process + m.events_routed_network + m.events_routed_file + m.events_routed_auth
      + m.events_routed_dlq)
    % 2 ^ 64

-- Whatever the topic, exactly one routed counter moves, by one, and no other counter does.
pub inc_routed_lem :
    (t : String) (m : PipelineMetrics)
    → (routed_total (inc_routed t m) ≡ fetch_add (routed_total m))
      × ((inc_routed t m).events_consumed ≡ m.events_consumed)
      × ((inc_routed t m).routing_errors ≡ m.routing_errors)
unfolding inc_routed
inc_routed_lem t m = ground arith
