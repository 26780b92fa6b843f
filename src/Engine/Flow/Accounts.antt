-- ===== src/Engine/Flow/Accounts.antt =====
-- Where events and alerts are, in whatever order the tasks take their steps.
use aigis_zero.Engine.Batching.{handed}
use aigis_zero.Engine.Dedup.{AlertSignature}
use aigis_zero.Engine.Flow.{Flow, alerts_of, consumed_one, evaluated, delivered, judged}
use aigis_zero.Engine.Metrics.{inc_alerts_generated}
use aigis_zero.Engine.Models.{Alert, TelemetryEvent}
use aigis_zero.Engine.Workers.{
  Scanning, signature_of, judge, handle_alert, handle_alerts, handle_event, handle_verdict,
}
use aigis_zero.Prelude.{
  ℕ, String, Bool, true, false, List, [], ◌∷◌, ◌++◌, ◌||◌, map, Result, ok, err, ◌≡◌, refl, ap, sym,
  ◌∙◌, append-nil, append_assoc, map-append, append-snoc, if◌then◌else◌, Bool-cases, inl, inr,
}

module _ {Rules Dedup : Type 0} (evaluate : Rules → TelemetryEvent → Result String (List Alert))
    (check_and_record : AlertSignature → Dedup → Dedup × Bool)
    (send_batch : List Alert → Result String (Unit {0})) (batch_max_size : ℕ) where
  -- A scanner that does nothing else: event after event, each under its rules.
  unfoldable pub scan_all : List (Rules × TelemetryEvent) → Scanning Dedup → Scanning Dedup
  scan_all [] s = s
  scan_all ((rules, e) ∷ es) s = scan_all es (handle_event (evaluate rules) check_and_record e s)

  abbrev pub scanned_event : Rules × TelemetryEvent → TelemetryEvent
  scanned_event (rules, e) = e

  -- The alerts that reached the batcher and the sink, and those that wait for the batcher.
  abbrev pub on_the_way : Flow Rules Dedup → List Alert
  on_the_way s = handed send_batch batch_max_size s.batching ++ s.alerts

  pub record Accounts (start : Scanning Dedup) (s : Flow Rules Dedup) : Type 0 where
    pub events_kept : s.consumed ≡ map scanned_event s.scanned ++ s.events
    pub in_turn :
        (rules : Rules)
        → handle_alerts (evaluate rules) check_and_record s.pending s.scanning
          ≡ scan_all s.scanned start
    pub alerts_kept : s.scanning.sent ≡ on_the_way s ++ s.lost
    pub lost_late : s.batcher_over ≡ false → s.lost ≡ []
    pub flushed :
        s.batcher_over ≡ true → (s.alerts ≡ []) × (s.batching.buffer ≡ []) × (s.cancelled ≡ true)
    pub drained :
        s.scanner_over ≡ true
        → (s.pending ≡ []) × (s.events ≡ s.late) × ((s.cancelled || s.consumer_over) ≡ true)
    pub in_time : s.scanner_over ≡ false → s.late ≡ []

  scan_all-snoc :
      (es : List (Rules × TelemetryEvent)) (rules : Rules) (e : TelemetryEvent) (s : Scanning Dedup)
      → scan_all (es ++ (rules, e) ∷ []) s
        ≡ handle_event (evaluate rules) check_and_record e (scan_all es s)
  unfolding scan_all
  scan_all-snoc [] rules e s = refl
  scan_all-snoc ((r, f) ∷ es) rules e s =
      scan_all-snoc es rules e (handle_event (evaluate r) check_and_record f s)

  -- The rules matter to an event, not to its alerts.
  handle_alerts_any :
      (rules rules' : Rules) (alerts : List Alert) (s : Scanning Dedup)
      → handle_alerts (evaluate rules) check_and_record alerts s
        ≡ handle_alerts (evaluate rules') check_and_record alerts s
  unfolding handle_alerts
  handle_alerts_any rules rules' [] s = refl
  handle_alerts_any rules rules' (a ∷ alerts) s =
      handle_alerts_any rules rules' alerts (handle_alert (evaluate rules) check_and_record a s)

  handle_alerts_of :
      (rules : Rules) (v : Result String (List Alert)) (s : Scanning Dedup)
      → handle_alerts (evaluate rules) check_and_record (alerts_of v) s
        ≡ handle_verdict (evaluate rules) check_and_record v s
  unfolding handle_alerts
  handle_alerts_of rules (ok alerts) s = refl
  handle_alerts_of rules (err e) s = refl

  module _ {start : Scanning Dedup} where
    pub consume-Accounts :
        (s : Flow Rules Dedup) (e : TelemetryEvent)
        → Accounts start s
        → Accounts start (consumed_one evaluate check_and_record send_batch batch_max_size e s)
    consume-Accounts s e k = record {
      events_kept = ap (λ c. c ++ e ∷ []) k.events_kept ∙ append_assoc _ s.events (e ∷ []);
      in_turn = k.in_turn;
      alerts_kept = k.alerts_kept;
      lost_late = k.lost_late;
      flushed = k.flushed;
      drained = λ over.
          let (idle, waits, ends) = k.drained over in
          (idle, rw over (ap (λ c. c ++ e ∷ []) waits), ends);
      in_time = λ going. rw going (k.in_time going);
    }

    pub scan-Accounts :
        (s : Flow Rules Dedup) (e : TelemetryEvent) (es : List TelemetryEvent)
        → s.scanner_over ≡ false
        → s.pending ≡ []
        → s.events ≡ e ∷ es
        → Accounts start s
        → Accounts start (evaluated evaluate check_and_record send_batch batch_max_size e es s)
    unfolding handle_alerts
    scan-Accounts s e es runs idle upcoming k =
        let kept = k.events_kept ∙ ap (λ c. map scanned_event s.scanned ++ c) upcoming in
        let rules = s.rules in
        let v = evaluate rules e in
        let so_far : s.scanning ≡ scan_all s.scanned start =
          sym (ap (λ c. handle_alerts (evaluate rules) check_and_record c s.scanning) idle)
          ∙ k.in_turn rules in
        record {
          events_kept = rw (map-append, append-snoc) kept;
          in_turn = λ rules'.
              handle_alerts_any rules' rules (alerts_of v) _
              ∙ handle_alerts_of rules v _
              ∙ ap (λ t. handle_event (evaluate rules) check_and_record e t) so_far
              ∙ sym (scan_all-snoc s.scanned rules e start);
          alerts_kept = k.alerts_kept;
          lost_late = k.lost_late;
          flushed = k.flushed;
          drained = λ over. cc;
          in_time = k.in_time;
        }

    -- Where an alert that passes goes.
    pass-Accounts :
        (s : Flow Rules Dedup) (a : Alert) (more : List Alert) (scanning : Scanning Dedup)
        (over : Bool)
        → s.batcher_over ≡ over
        → s.scanner_over ≡ false
        → scanning.sent ≡ s.scanning.sent ++ a ∷ []
        → ((rules : Rules)
            → handle_alerts (evaluate rules) check_and_record more scanning
              ≡ scan_all s.scanned start)
        → Accounts start s
        → let s' = record s { pending = more; scanning = scanning } in
          Accounts start (
            if over
            then record s' { lost = s.lost ++ a ∷ [] }
            else record s' { alerts = s.alerts ++ a ∷ [] })
    pass-Accounts s a more scanning true stops runs added turn k = record {
      events_kept = k.events_kept;
      in_turn = turn;
      alerts_kept = added ∙ ap (λ c. c ++ a ∷ []) k.alerts_kept ∙ append_assoc _ s.lost (a ∷ []);
      lost_late = λ going. cc;
      flushed = k.flushed;
      drained = λ over. cc;
      in_time = k.in_time;
    }
    pass-Accounts s a more scanning false goes runs added turn k =
        let none_lost = k.lost_late goes in
        let way = handed send_batch batch_max_size s.batching in
        let all = k.alerts_kept ∙ ap (λ c. on_the_way s ++ c) none_lost ∙ append-nil _ in
        record {
          events_kept = k.events_kept;
          in_turn = turn;
          alerts_kept =
              added
              ∙ ap (λ c. c ++ a ∷ []) all
              ∙ append_assoc way s.alerts (a ∷ [])
              ∙ sym (append-nil _)
              ∙ ap (λ c. (way ++ (s.alerts ++ a ∷ [])) ++ c) (sym none_lost);
          lost_late = k.lost_late;
          flushed = λ over. cc;
          drained = λ over. cc;
          in_time = k.in_time;
        }

    verdict-Accounts :
        (s : Flow Rules Dedup) (a : Alert) (more : List Alert) (v : Dedup × Bool)
        → s.scanner_over ≡ false
        → let scanning =
            judge
              (evaluate s.rules)
              check_and_record
              a
              v
              (record s.scanning { metrics = inc_alerts_generated s.scanning.metrics }) in
          ((rules : Rules)
            → handle_alerts (evaluate rules) check_and_record more scanning
              ≡ scan_all s.scanned start)
          → Accounts start s
          → Accounts start (
              delivered evaluate check_and_record send_batch batch_max_size a v.1
                (record s { pending = more; scanning = scanning }))
    verdict-Accounts s a more (d, true) runs turn k =
        pass-Accounts s a more _ s.batcher_over refl runs refl turn k
    verdict-Accounts s a more (d, false) runs turn k = record {
      events_kept = k.events_kept;
      in_turn = turn;
      alerts_kept = k.alerts_kept;
      lost_late = k.lost_late;
      flushed = k.flushed;
      drained = λ over. cc;
      in_time = k.in_time;
    }

    pub judge-Accounts :
        (s : Flow Rules Dedup) (a : Alert) (more : List Alert)
        → s.pending ≡ a ∷ more
        → Accounts start s
        → Accounts start (judged evaluate check_and_record send_batch batch_max_size a more s)
    unfolding handle_alerts
    judge-Accounts s a more pends k = elim (Bool-cases s.scanner_over) [
      | inl over ↦ let idle = (k.drained over).0 in absurd (cc)
      | inr runs ↦
          verdict-Accounts s a more (check_and_record (signature_of a) s.scanning.dedup) runs
            (λ rules.
              sym (ap (λ c. handle_alerts (evaluate rules) check_and_record c s.scanning) pends)
              ∙ k.in_turn rules)
            k
    ]
