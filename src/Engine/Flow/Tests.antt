-- ===== src/Engine/Flow/Tests.antt =====
-- A shutdown at which the batcher is quicker than the scanner.
use aigis_zero.Engine.Dedup.{AlertSignature}
use aigis_zero.Engine.Flow.{
  Flow, consume, scan, judge_next, scanner_drained, receiver_drops, batcher_ends, cancel, Reaches,
  here, next, begun,
}
use aigis_zero.Engine.Flow.Accounts.{Accounts}
use aigis_zero.Engine.Flow.Invariant.{flow-Accounts}
use aigis_zero.Engine.Metrics.{EngineMetrics}
use aigis_zero.Engine.Models.{Alert, TelemetryEvent, medium, yara_x}
use aigis_zero.Engine.Workers.{Scanning, batch_loop}
use aigis_zero.Json.{null}
use aigis_zero.Prelude.{
  ℕ, pos, String, Bool, true, false, List, [], ◌∷◌, none, some, Result, ok, refl,
}

abbrev event : TelemetryEvent
event = record {
  id = "e";
  node_id = 7;
  hostname = "h";
  event_type = "process";
  timestamp_ns = pos 1;
  payload = null;
  raw_sequence_id = none;
}

abbrev raised : Alert
raised = record {
  alert_id = 1;
  node_id = 7;
  hostname = "h";
  severity = medium;
  source = yara_x;
  mitre_technique_id = none;
  mitre_tactic = none;
  description = "d";
  triggering_event_id = some "e";
  threat_score = 0;
  status = "open";
  created_at = 5;
}

abbrev zeros : EngineMetrics
zeros = record {
  events_consumed = 0;
  events_scanned = 0;
  alerts_generated = 0;
  alerts_suppressed = 0;
  alerts_persisted = 0;
  rule_reloads_total = 0;
  rule_reload_failures_total = 0;
}

abbrev raising : ℕ → TelemetryEvent → Result String (List Alert)
raising rules e = ok (raised ∷ [])

abbrev passing : AlertSignature → Bool → Bool × Bool
passing sig d = (d, true)

abbrev sink : List Alert → Result String (Unit {0})
sink alerts = ok tt

abbrev idle : Scanning Bool
idle = record { dedup = false; sent = []; metrics = zeros }

-- The first event is taken, and its alert is raised when no task takes it any more; the second is
-- sent when the scanner has looked for the last time.
abbrev over : Flow ℕ Bool
over = record (begun 0 idle zeros) {
  consumed = event ∷ event ∷ [];
  events = event ∷ [];
  late = event ∷ [];
  scanned = (0, event) ∷ [];
  scanning = record {
    dedup = false;
    sent = raised ∷ [];
    metrics = record zeros { events_scanned = 1; alerts_generated = 1 };
  };
  lost = raised ∷ [];
  cancelled = true;
  scanner_over = true;
  receiver_gone = true;
  batcher_over = true;
}

shutdown : Reaches raising passing sink 50 (begun 0 idle zeros) over
unfolding batch_loop
shutdown =
    let taken = next (next here (consume _ event refl refl)) (cancel _) in
    let alone = next taken (batcher_ends _ refl refl) in
    let judged = next (next alone (scan _ event [] refl refl refl)) (judge_next _ raised [] refl) in
    let drained = next judged (scanner_drained _ refl refl refl refl) in
    next (next drained (consume _ event refl refl)) (receiver_drops _ refl)

flow-Accounts_example : Accounts raising passing sink 50 idle over
flow-Accounts_example = flow-Accounts raising passing sink 50 0 idle zeros over refl shutdown
