-- ===== src/Engine/Flow.antt =====
-- The tasks of rule-engine/src/main.rs side by side: the Kafka consumer, the scanner, the alert
-- batcher, the reload and the shutdown, each a step that may come at any time. The bounds of the
-- channels only make a sender wait, so that they allow fewer orders of steps than are modelled. The
-- scanner ends at an empty channel and drops its receiver in a later step: what the consumer sends
-- in between is taken by no task.
pub mod Accounts
pub mod Invariant
mod Tests
use aigis_zero.Engine.Dedup.{AlertSignature}
use aigis_zero.Engine.Metrics.{EngineMetrics, inc_scanned}
use aigis_zero.Engine.Models.{Alert, TelemetryEvent}
use aigis_zero.Engine.Workers.{
  Scanning, Batching, signature_of, handle_alert, alerted, slept, stopping, batch_loop,
}
use aigis_zero.Prelude.{
  ℕ, String, Bool, true, false, List, [], ◌∷◌, ◌++◌, Result, ok, err, ◌≡◌, if◌then◌else◌,
}

-- The channels between the tasks, what each task holds, and which are over. What the event channel
-- took, what it took after the scanner had looked for the last time, what was scanned and under which
-- rules, and the alerts that no task takes any more, are remembered.
pub record Flow (Rules Dedup : Type 0) : Type 0 where
  pub rules : Rules
  pub consumed : List TelemetryEvent
  pub events : List TelemetryEvent
  pub late : List TelemetryEvent
  pub scanned : List (Rules × TelemetryEvent)
  pub pending : List Alert
  pub scanning : Scanning Dedup
  pub alerts : List Alert
  pub batching : Batching
  pub lost : List Alert
  pub cancelled : Bool
  pub consumer_over : Bool
  pub scanner_over : Bool
  pub receiver_gone : Bool
  pub batcher_over : Bool

-- The start, with empty channels.
abbrev pub begun :
    {Rules Dedup : Type 0} → Rules → Scanning Dedup → EngineMetrics → Flow Rules Dedup
begun rules scanning metrics = record {
  rules = rules;
  consumed = [];
  events = [];
  late = [];
  scanned = [];
  pending = [];
  scanning = scanning;
  alerts = [];
  batching = record { buffer = []; batches = []; metrics = metrics };
  lost = [];
  cancelled = false;
  consumer_over = false;
  scanner_over = false;
  receiver_gone = false;
  batcher_over = false;
}

-- The alerts of an evaluation; one that fails is only logged.
abbrev pub alerts_of : Result String (List Alert) → List Alert
alerts_of (ok alerts) = alerts
alerts_of (err e) = []

module _ {Rules Dedup : Type 0} (evaluate : Rules → TelemetryEvent → Result String (List Alert))
    (check_and_record : AlertSignature → Dedup → Dedup × Bool)
    (send_batch : List Alert → Result String (Unit {0})) (batch_max_size : ℕ) where
  -- The consumer sends an event.
  abbrev pub consumed_one : TelemetryEvent → Flow Rules Dedup → Flow Rules Dedup
  consumed_one e s = record s {
    consumed = s.consumed ++ e ∷ [];
    events = s.events ++ e ∷ [];
    late = if s.scanner_over then s.late ++ e ∷ [] else s.late;
  }

  -- The scanner takes an event and evaluates it.
  abbrev pub evaluated : TelemetryEvent → List TelemetryEvent → Flow Rules Dedup → Flow Rules Dedup
  evaluated e es s = record s {
    events = es;
    scanned = s.scanned ++ (s.rules, e) ∷ [];
    pending = alerts_of (evaluate s.rules e);
    scanning = record s.scanning { metrics = inc_scanned s.scanning.metrics };
  }

  -- An alert that passes goes to the batcher, if it still runs.
  abbrev pub delivered : Alert → Bool → Flow Rules Dedup → Flow Rules Dedup
  delivered a false s = s
  delivered a true s =
      if s.batcher_over
      then record s { lost = s.lost ++ a ∷ [] }
      else record s { alerts = s.alerts ++ a ∷ [] }

  -- The scanner asks the deduplicator about one alert.
  abbrev pub judged : Alert → List Alert → Flow Rules Dedup → Flow Rules Dedup
  judged a more s = delivered a (check_and_record (signature_of a) s.scanning.dedup).1 (record s {
    pending = more;
    scanning = handle_alert (evaluate s.rules) check_and_record a s.scanning;
  })

  -- The batcher takes an alert, is woken by its timer, or stops with what then waits.
  abbrev pub batched : Alert → List Alert → Bool → Flow Rules Dedup → Flow Rules Dedup
  batched a more due s = record s {
    alerts = more;
    batching = batch_loop send_batch batch_max_size (alerted a due ∷ []) s.batching;
  }

  abbrev pub woken : Bool → Flow Rules Dedup → Flow Rules Dedup
  woken due s = record s {
    batching = batch_loop send_batch batch_max_size (slept due ∷ []) s.batching;
  }

  abbrev pub stopped : Flow Rules Dedup → Flow Rules Dedup
  stopped s = record s {
    alerts = [];
    batching = batch_loop send_batch batch_max_size (stopping s.alerts ∷ []) s.batching;
    batcher_over = true;
  }

  pub data Step : Flow Rules Dedup → Flow Rules Dedup → Type 0 where
    consume :
        (s : Flow Rules Dedup) (e : TelemetryEvent)
        → s.consumer_over ≡ false
        → s.receiver_gone ≡ false
        → Step s (consumed_one e s)
    consumer_ends : (s : Flow Rules Dedup) → Step s (record s { consumer_over = true })
    scan :
        (s : Flow Rules Dedup) (e : TelemetryEvent) (es : List TelemetryEvent)
        → s.scanner_over ≡ false
        → s.pending ≡ []
        → s.events ≡ e ∷ es
        → Step s (evaluated e es s)
    judge_next :
        (s : Flow Rules Dedup) (a : Alert) (more : List Alert)
        → s.pending ≡ a ∷ more
        → Step s (judged a more s)
    scanner_drained :
        (s : Flow Rules Dedup)
        → s.scanner_over ≡ false
        → s.cancelled ≡ true
        → s.pending ≡ []
        → s.events ≡ []
        → Step s (record s { scanner_over = true })
    scanner_closed :
        (s : Flow Rules Dedup)
        → s.scanner_over ≡ false
        → s.consumer_over ≡ true
        → s.pending ≡ []
        → s.events ≡ []
        → Step s (record s { scanner_over = true })
    receiver_drops :
        (s : Flow Rules Dedup) → s.scanner_over ≡ true → Step s (record s { receiver_gone = true })
    batch_next :
        (s : Flow Rules Dedup) (a : Alert) (more : List Alert) (due : Bool)
        → s.batcher_over ≡ false
        → s.alerts ≡ a ∷ more
        → Step s (batched a more due s)
    wake : (s : Flow Rules Dedup) (due : Bool) → s.batcher_over ≡ false → Step s (woken due s)
    batcher_ends :
        (s : Flow Rules Dedup) → s.cancelled ≡ true → s.batcher_over ≡ false → Step s (stopped s)
    reload_rules : (s : Flow Rules Dedup) (rules : Rules) → Step s (record s { rules = rules })
    cancel : (s : Flow Rules Dedup) → Step s (record s { cancelled = true })

  pub data Reaches (s : Flow Rules Dedup) : Flow Rules Dedup → Type 0 where
    here : Reaches s s
    next : {t u : Flow Rules Dedup} → Reaches s t → Step t u → Reaches s u
