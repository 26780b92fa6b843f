-- ===== src/Engine/Workers.antt =====
-- The tasks of rule-engine/src/main.rs: the scanner loop, the alert batcher and the hot reload of
-- the rules. The engine's verdict on an event, the deduplicator, and the sink's outcome are
-- parameters, filled by Engine.Scanner, Engine.Dedup and Engine.Sink.
use aigis_zero.Engine.Metrics.{
  EngineMetrics, inc_scanned, inc_alerts_generated, inc_alerts_suppressed, inc_alerts_persisted,
  inc_rule_reloads, inc_rule_reload_failures,
}
use aigis_zero.Engine.Mitre.{MitreTaxonomy}
use aigis_zero.Engine.Models.{Alert, TelemetryEvent}
use aigis_zero.Engine.Dedup.{AlertSignature}
use aigis_zero.Prelude.{
  ℕ, String, Bool, true, false, ◌||◌, List, [], ◌∷◌, ◌++◌, Option, none, some, Result, ok, err,
  if◌then◌else◌, leb, length,
}

abbrev pub signature_of : Alert → AlertSignature
signature_of a = record {
  node_id = a.node_id;
  rule_identifier = a.description;
  mitre_technique = a.mitre_technique_id;
}

-- What a round of the scanner's `select!` takes: an event, the shutdown with the events that then
-- still wait in the channel, or the channel's end.
pub data ScannerTurn : Type 0 where
  arrived : TelemetryEvent → ScannerTurn
  shutdown : List TelemetryEvent → ScannerTurn
  closed : ScannerTurn

-- The deduplicator's state, the alerts that the open alert channel took, and the counters.
pub record Scanning (Dedup : Type 0) : Type 0 where
  pub dedup : Dedup
  pub sent : List Alert
  pub metrics : EngineMetrics

module _ {Dedup : Type 0} (evaluate : TelemetryEvent → Result String (List Alert))
    (check_and_record : AlertSignature → Dedup → Dedup × Bool) where
  abbrev pub judge : Alert → Dedup × Bool → Scanning Dedup → Scanning Dedup
  judge a (d, true) s = record s { dedup = d; sent = s.sent ++ a ∷ [] }
  judge a (d, false) s = record s { dedup = d; metrics = inc_alerts_suppressed s.metrics }

  -- The body of the loop over the alerts of one event.
  abbrev pub handle_alert : Alert → Scanning Dedup → Scanning Dedup
  handle_alert a s =
      judge a (check_and_record (signature_of a) s.dedup)
        (record s { metrics = inc_alerts_generated s.metrics })

  unfoldable pub handle_alerts : List Alert → Scanning Dedup → Scanning Dedup
  handle_alerts [] s = s
  handle_alerts (a ∷ alerts) s = handle_alerts alerts (handle_alert a s)

  abbrev pub handle_verdict : Result String (List Alert) → Scanning Dedup → Scanning Dedup
  handle_verdict (ok alerts) s = handle_alerts alerts s
  handle_verdict (err e) s = s

  abbrev pub handle_event : TelemetryEvent → Scanning Dedup → Scanning Dedup
  handle_event e s = handle_verdict (evaluate e) (record s { metrics = inc_scanned s.metrics })

  unfoldable pub drain_events : List TelemetryEvent → Scanning Dedup → Scanning Dedup
  drain_events [] s = s
  drain_events (e ∷ es) s = drain_events es (handle_event e s)

  -- The scanner loop.
  unfoldable pub scan_loop : List ScannerTurn → Scanning Dedup → Scanning Dedup
  scan_loop [] s = s
  scan_loop (arrived e ∷ turns) s = scan_loop turns (handle_event e s)
  scan_loop (shutdown waiting ∷ turns) s = drain_events waiting s
  scan_loop (closed ∷ turns) s = s

-- What a round of the batcher's `select!` takes; the times say whether the flush interval is over.
pub data BatcherTurn : Type 0 where
  alerted : Alert → Bool → BatcherTurn
  slept : Bool → BatcherTurn
  all_sent : BatcherTurn
  stopping : List Alert → BatcherTurn

-- The buffer, the batches that the sink got, and the counters.
pub record Batching : Type 0 where
  pub buffer : List Alert
  pub batches : List (List Alert)
  pub metrics : EngineMetrics

module _ (send_batch : List Alert → Result String (Unit {0})) (batch_max_size : ℕ) where
  abbrev pub counted : Result String (Unit {0}) → ℕ → EngineMetrics → EngineMetrics
  counted (ok u) n m = inc_alerts_persisted n m
  counted (err e) n m = m

  -- A flush that counts what was persisted, and clears the buffer.
  abbrev pub flush : Batching → Batching
  flush s = record {
    buffer = [];
    batches = s.batches ++ s.buffer ∷ [];
    metrics = counted (send_batch s.buffer) (length s.buffer) s.metrics;
  }

  -- A flush of what there is, if anything.
  abbrev pub flush_some : List Alert → Batching → Batching
  flush_some [] s = s
  flush_some (a ∷ buffer) s = flush s

  -- The flush at the channel's end, which counts nothing.
  abbrev pub flush_last : List Alert → Batching → Batching
  flush_last [] s = s
  flush_last (a ∷ buffer) s = record s { buffer = []; batches = s.batches ++ (a ∷ buffer) ∷ [] }

  unfoldable pub batch_loop : List BatcherTurn → Batching → Batching
  batch_loop [] s = s
  batch_loop (alerted a due ∷ turns) s =
      let s' = record s { buffer = s.buffer ++ a ∷ [] } in
      let full = batch_loop turns (flush s') in
      let rest = batch_loop turns s' in
      if leb batch_max_size (length s'.buffer) || due then full else rest
  batch_loop (slept due ∷ turns) s =
      let flushed = batch_loop turns (flush_some s.buffer s) in
      let rest = batch_loop turns s in if due then flushed else rest
  batch_loop (all_sent ∷ turns) s = flush_last s.buffer s
  batch_loop (stopping waiting ∷ turns) s =
      let s' = record s { buffer = s.buffer ++ waiting } in flush_some s'.buffer s'

-- The registry in use and the counters, over the type of registries.
pub record Reloading (Rules : Type 0) : Type 0 where
  pub rules : Rules
  pub mitre : MitreTaxonomy
  pub metrics : EngineMetrics

-- A SIGHUP: the outcome of the compilation, and of loading the taxonomy, which is `none` without
-- the file. A taxonomy that cannot be read is the empty one.
unfoldable pub reload :
    {Rules : Type 0}
    → MitreTaxonomy
    → Result String Rules
    → Option (Result String MitreTaxonomy)
    → Reloading Rules
    → Reloading Rules
reload empty (ok new_rules) none s = record s {
  rules = new_rules;
  mitre = empty;
  metrics = inc_rule_reloads s.metrics;
}
reload empty (ok new_rules) (some (ok mitre)) s = record s {
  rules = new_rules;
  mitre = mitre;
  metrics = inc_rule_reloads s.metrics;
}
reload empty (ok new_rules) (some (err e)) s = record s {
  rules = new_rules;
  mitre = empty;
  metrics = inc_rule_reloads s.metrics;
}
reload empty (err e) loaded s = record s { metrics = inc_rule_reload_failures s.metrics }
