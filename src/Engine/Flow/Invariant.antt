-- ===== src/Engine/Flow/Invariant.antt =====
-- The accounts of events and alerts hold after any steps of the tasks.
use aigis_zero.Engine.Batching.{handed, batch_loop-handed}
use aigis_zero.Engine.Dedup.{AlertSignature}
use aigis_zero.Engine.Flow.{
  Flow, Step, consume, scan, judge_next, consumer_ends, scanner_drained, scanner_closed,
  receiver_drops, batch_next, wake, batcher_ends, reload_rules, cancel, Reaches, here, next, begun,
  batched, woken, stopped,
}
use aigis_zero.Engine.Flow.Accounts.{
  Accounts, scan_all, consume-Accounts, scan-Accounts, judge-Accounts,
}
use aigis_zero.Engine.Metrics.{EngineMetrics}
use aigis_zero.Engine.Models.{Alert, TelemetryEvent}
use aigis_zero.Engine.Workers.{
  Scanning, Batching, handle_alerts, alerted, slept, stopping, flush_some, batch_loop,
}
use aigis_zero.Prelude.{
  ℕ, String, Bool, true, false, List, [], ◌∷◌, ◌++◌, Result, ◌≡◌, refl, ap, sym, ◌∙◌, append-nil,
  append-snoc, arith,
}

-- The last flush leaves nothing in the buffer.
flush_some-buffer :
    (send_batch : List Alert → Result String (Unit {0})) (n : ℕ) (buffer : List Alert)
    (b : Batching)
    → b.buffer ≡ buffer
    → (flush_some send_batch n buffer b).buffer ≡ []
flush_some-buffer send_batch n [] b h = h
flush_some-buffer send_batch n (a ∷ buffer) b h = refl

stopping-buffer :
    (send_batch : List Alert → Result String (Unit {0})) (n : ℕ) (waiting : List Alert)
    (b : Batching)
    → (batch_loop send_batch n (stopping waiting ∷ []) b).buffer ≡ []
unfolding batch_loop
stopping-buffer send_batch n waiting b =
    flush_some-buffer send_batch n (b.buffer ++ waiting) (record b { buffer = b.buffer ++ waiting })
      refl

module _ {Rules Dedup : Type 0} (evaluate : Rules → TelemetryEvent → Result String (List Alert))
    (check_and_record : AlertSignature → Dedup → Dedup × Bool)
    (send_batch : List Alert → Result String (Unit {0})) (batch_max_size : ℕ) where
  module _ {start : Scanning Dedup} where
    batch-Accounts :
        (s : Flow Rules Dedup) (a : Alert) (more : List Alert) (due : Bool)
        → s.batcher_over ≡ false
        → s.alerts ≡ a ∷ more
        → Accounts evaluate check_and_record send_batch batch_max_size start s
        → Accounts evaluate check_and_record send_batch batch_max_size start
            (batched evaluate check_and_record send_batch batch_max_size a more due s)
    batch-Accounts s a more due runs waits k =
        let way = handed send_batch batch_max_size s.batching in
        let taken = batch_loop-handed send_batch batch_max_size (alerted a due ∷ []) s.batching in
        record {
          events_kept = k.events_kept;
          in_turn = k.in_turn;
          alerts_kept =
              k.alerts_kept
              ∙ ap (λ c. c ++ s.lost)
                  (ap (λ c. way ++ c) waits
                    ∙ sym (append-snoc way a more)
                    ∙ ap (λ c. c ++ more) (sym taken));
          lost_late = k.lost_late;
          flushed = λ over. cc;
          drained = k.drained;
          in_time = k.in_time;
        }

    wake-Accounts :
        (s : Flow Rules Dedup) (due : Bool)
        → s.batcher_over ≡ false
        → Accounts evaluate check_and_record send_batch batch_max_size start s
        → Accounts evaluate check_and_record send_batch batch_max_size start
            (woken evaluate check_and_record send_batch batch_max_size due s)
    wake-Accounts s due runs k =
        let taken = batch_loop-handed send_batch batch_max_size (slept due ∷ []) s.batching in
        record {
          events_kept = k.events_kept;
          in_turn = k.in_turn;
          alerts_kept =
              k.alerts_kept ∙ ap (λ c. (c ++ s.alerts) ++ s.lost) (sym (taken ∙ append-nil _));
          lost_late = k.lost_late;
          flushed = λ over. cc;
          drained = k.drained;
          in_time = k.in_time;
        }

    stop-Accounts :
        (s : Flow Rules Dedup)
        → s.cancelled ≡ true
        → s.batcher_over ≡ false
        → Accounts evaluate check_and_record send_batch batch_max_size start s
        → Accounts evaluate check_and_record send_batch batch_max_size start
            (stopped evaluate check_and_record send_batch batch_max_size s)
    stop-Accounts s cancels runs k =
        let taken =
          batch_loop-handed send_batch batch_max_size (stopping s.alerts ∷ []) s.batching in
        record {
          events_kept = k.events_kept;
          in_turn = k.in_turn;
          alerts_kept = k.alerts_kept ∙ ap (λ c. c ++ s.lost) (sym taken ∙ sym (append-nil _));
          lost_late = λ going. cc;
          flushed = λ over.
              (refl, stopping-buffer send_batch batch_max_size s.alerts s.batching, cancels);
          drained = k.drained;
          in_time = k.in_time;
        }

    Step-Accounts :
        {s t : Flow Rules Dedup}
        → Step evaluate check_and_record send_batch batch_max_size s t
        → Accounts evaluate check_and_record send_batch batch_max_size start s
        → Accounts evaluate check_and_record send_batch batch_max_size start t
    Step-Accounts (consume s e runs takes) k =
        consume-Accounts evaluate check_and_record send_batch batch_max_size s e k
    Step-Accounts (scan s e es runs idle upcoming) k =
        scan-Accounts evaluate check_and_record send_batch batch_max_size s e es runs idle upcoming
          k
    Step-Accounts (judge_next s a more pends) k =
        judge-Accounts evaluate check_and_record send_batch batch_max_size s a more pends k
    Step-Accounts (consumer_ends s) k = record {
      events_kept = k.events_kept;
      in_turn = k.in_turn;
      alerts_kept = k.alerts_kept;
      lost_late = k.lost_late;
      flushed = k.flushed;
      drained = λ over. ((k.drained over).0, (k.drained over).1, ground arith);
      in_time = k.in_time;
    }
    Step-Accounts (scanner_drained s goes cancels idle empty) k = record {
      events_kept = k.events_kept;
      in_turn = k.in_turn;
      alerts_kept = k.alerts_kept;
      lost_late = k.lost_late;
      flushed = k.flushed;
      drained = λ over. (idle, empty ∙ sym (k.in_time goes), rw cancels refl);
      in_time = λ going. cc;
    }
    Step-Accounts (scanner_closed s goes closed idle empty) k = record {
      events_kept = k.events_kept;
      in_turn = k.in_turn;
      alerts_kept = k.alerts_kept;
      lost_late = k.lost_late;
      flushed = k.flushed;
      drained = λ over. (idle, empty ∙ sym (k.in_time goes), rw closed (ground arith));
      in_time = λ going. cc;
    }
    Step-Accounts (receiver_drops s over) k = record {
      events_kept = k.events_kept;
      in_turn = k.in_turn;
      alerts_kept = k.alerts_kept;
      lost_late = k.lost_late;
      flushed = k.flushed;
      drained = k.drained;
      in_time = k.in_time;
    }
    Step-Accounts (batch_next s a more due runs waits) k = batch-Accounts s a more due runs waits k
    Step-Accounts (wake s due runs) k = wake-Accounts s due runs k
    Step-Accounts (batcher_ends s cancels runs) k = stop-Accounts s cancels runs k
    Step-Accounts (reload_rules s rules) k = record {
      events_kept = k.events_kept;
      in_turn = k.in_turn;
      alerts_kept = k.alerts_kept;
      lost_late = k.lost_late;
      flushed = k.flushed;
      drained = k.drained;
      in_time = k.in_time;
    }
    Step-Accounts (cancel s) k = record {
      events_kept = k.events_kept;
      in_turn = k.in_turn;
      alerts_kept = k.alerts_kept;
      lost_late = k.lost_late;
      flushed = λ over. ((k.flushed over).0, (k.flushed over).1, refl);
      drained = λ over. ((k.drained over).0, (k.drained over).1, refl);
      in_time = k.in_time;
    }

    Reaches-Accounts :
        {s t : Flow Rules Dedup}
        → Reaches evaluate check_and_record send_batch batch_max_size s t
        → Accounts evaluate check_and_record send_batch batch_max_size start s
        → Accounts evaluate check_and_record send_batch batch_max_size start t
    Reaches-Accounts here k = k
    Reaches-Accounts (next r step) k = Step-Accounts step (Reaches-Accounts r k)

  -- In whatever order the consumer, the scanner, the batcher, reloads and the shutdown take their
  -- steps: the events that the channel took have been scanned, once and in order, or wait; the
  -- scanner is where it would be alone, each event under the rules that were in use when it was
  -- taken, but for the alerts that it has yet to judge; the alerts that it has let through are
  -- those of the sink's batches, the batcher's buffer and the channel, in that order, and then
  -- those that are lost. None is lost before the batcher is over; then the shutdown has begun, and
  -- nothing waits in the channel or the buffer. The scanner is over only after the shutdown has
  -- begun or the consumer has ended; then no alert is left to judge, and the events that wait, which
  -- are lost, are those that came after it had found the channel empty.
  pub flow-Accounts :
      (rules : Rules) (start : Scanning Dedup) (metrics : EngineMetrics) (t : Flow Rules Dedup)
      → start.sent ≡ []
      → Reaches evaluate check_and_record send_batch batch_max_size (begun rules start metrics) t
      → Accounts evaluate check_and_record send_batch batch_max_size start t
  unfolding handle_alerts scan_all
  flow-Accounts rules start metrics t empty r = Reaches-Accounts r (record {
    events_kept = refl;
    in_turn = λ rules'. refl;
    alerts_kept = empty;
    lost_late = λ going. refl;
    flushed = λ over. cc;
    drained = λ over. cc;
    in_time = λ going. refl;
  })
