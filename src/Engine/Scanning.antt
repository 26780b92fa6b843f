-- ===== src/Engine/Scanning.antt =====
-- That the scanner loop's counters account for every alert.
use aigis_zero.Engine.Dedup.{AlertSignature}
use aigis_zero.Engine.Metrics.{inc_scanned, inc_alerts_generated}
use aigis_zero.Engine.Models.{Alert, TelemetryEvent}
use aigis_zero.Engine.Workers.{
  ScannerTurn, arrived, shutdown, closed, Scanning, signature_of, judge, handle_alert,
  handle_alerts, handle_verdict, handle_event, drain_events, scan_loop,
}
use aigis_zero.Prelude.{
  ◌+◌, ◌%◌, ◌^◌, String, Bool, true, false, List, [], ◌∷◌, Result, ok, err, length, length-append,
  ◌≡◌, arith,
}

-- An alert that was generated was sent or suppressed.
abbrev pub Balanced : {Dedup : Type 0} → Scanning Dedup → Type 0
Balanced s = (length s.sent + s.metrics.alerts_suppressed) % 2 ^ 64 ≡ s.metrics.alerts_generated

module _ {Dedup : Type 0} (evaluate : TelemetryEvent → Result String (List Alert))
    (check_and_record : AlertSignature → Dedup → Dedup × Bool) where
  judge-Balanced :
      (a : Alert) (v : Dedup × Bool) (s : Scanning Dedup)
      → Balanced s
      → Balanced (
          judge evaluate check_and_record a v
            (record s { metrics = inc_alerts_generated s.metrics }))
  judge-Balanced a (d, true) s h = omega (arith, length-append s.sent (a ∷ []))
  judge-Balanced a (d, false) s h = omega arith

  handle_alerts-Balanced :
      (alerts : List Alert) (s : Scanning Dedup)
      → Balanced s
      → Balanced (handle_alerts evaluate check_and_record alerts s)
  unfolding handle_alerts
  handle_alerts-Balanced [] s h = h
  handle_alerts-Balanced (a ∷ alerts) s h =
      handle_alerts-Balanced alerts (handle_alert evaluate check_and_record a s)
        (judge-Balanced a (check_and_record (signature_of a) s.dedup) s h)

  handle_verdict-Balanced :
      (v : Result String (List Alert)) (s : Scanning Dedup)
      → Balanced s
      → Balanced (handle_verdict evaluate check_and_record v s)
  handle_verdict-Balanced (ok alerts) s h = handle_alerts-Balanced alerts s h
  handle_verdict-Balanced (err e) s h = h

  handle_event-Balanced :
      (e : TelemetryEvent) (s : Scanning Dedup)
      → Balanced s
      → Balanced (handle_event evaluate check_and_record e s)
  handle_event-Balanced e s h =
      handle_verdict-Balanced (evaluate e) (record s { metrics = inc_scanned s.metrics }) h

  drain_events-Balanced :
      (es : List TelemetryEvent) (s : Scanning Dedup)
      → Balanced s
      → Balanced (drain_events evaluate check_and_record es s)
  unfolding drain_events
  drain_events-Balanced [] s h = h
  drain_events-Balanced (e ∷ es) s h =
      drain_events-Balanced es (handle_event evaluate check_and_record e s)
        (handle_event-Balanced e s h)

  -- While the alert channel is open, the scanner loop keeps the number of generated alerts equal,
  -- modulo 2^64, to those it sent and those it suppressed together, the drain at the shutdown
  -- included.
  pub scan_loop-Balanced :
      (turns : List ScannerTurn) (s : Scanning Dedup)
      → Balanced s
      → Balanced (scan_loop evaluate check_and_record turns s)
  unfolding scan_loop
  scan_loop-Balanced [] s h = h
  scan_loop-Balanced (arrived e ∷ turns) s h =
      scan_loop-Balanced turns (handle_event evaluate check_and_record e s)
        (handle_event-Balanced e s h)
  scan_loop-Balanced (shutdown waiting ∷ turns) s h = drain_events-Balanced waiting s h
  scan_loop-Balanced (closed ∷ turns) s h = h
