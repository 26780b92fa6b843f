-- ===== src/Pipeline/Counting.antt =====
-- What a run of the worker adds to the producer's log, to the committed offsets and to the counters.
use aigis_zero.Json.{Codec}
use aigis_zero.Pipeline.Metrics.{
  PipelineMetrics, fetch_add, routed_total, inc_errors, inc_consumed, inc_routed_lem,
}
use aigis_zero.Pipeline.Records.{target, emitted, counted, process_state}
use aigis_zero.Pipeline.Router.{FutureRecord, Message, dlq}
use aigis_zero.Pipeline.Worker.{
  BorrowedMessage, borrowed, Poll, cancelled, message, stream_error, ended, ConsumerWorker,
  handle_message, run,
}
use aigis_zero.Prelude.{
  ◌+◌, ◌%◌, ◌^◌, ◌<◌, String, List, [], ◌∷◌, ◌++◌, map, Result, ◌≡◌, ap, ◌∙◌, sym, arith, length,
  append-nil, append-snoc, ℤ, inl, inr, Result-cases,
}

-- The messages that the worker takes before it stops.
unfoldable pub handled : List Poll → List BorrowedMessage
handled [] = []
handled (cancelled ∷ polls) = []
handled (message msg ∷ polls) = msg ∷ handled polls
handled (stream_error e ∷ polls) = handled polls
handled (ended ∷ polls) = []

abbrev pub position : BorrowedMessage → String × ℤ × ℤ
position msg = (msg.topic, msg.partition, msg.offset)

module _ (codec : Codec) where
  abbrev pub record_of : BorrowedMessage → FutureRecord
  record_of msg = emitted codec (borrowed msg)

  counted_lem :
      (msg : Message) (m : PipelineMetrics)
      → ((counted codec msg m).events_consumed ≡ fetch_add m.events_consumed)
        × (routed_total (counted codec msg m) ≡ fetch_add (routed_total m))
  counted_lem msg m = elim (Result-cases (codec.from_slice msg.payload)) [
    | inl (event, e) ↦
        rw (e, counted)
          (
            (inc_routed_lem (target event) (inc_consumed m)).1,
            (inc_routed_lem (target event) (inc_consumed m)).0,
          )
    | inr (text, e) ↦
        rw (e, counted)
          (
            (inc_routed_lem dlq (inc_errors (inc_consumed m))).1,
            (inc_routed_lem dlq (inc_errors (inc_consumed m))).0,
          )
  ]

module _ (codec : Codec) (deliver : FutureRecord → Result String (Unit {0})) where
  -- The worker hands the producer one record for each message that it takes, in the order of the
  -- messages, and commits the position of each of them, also where `process` fails or the delivery
  -- does.
  pub run-records :
      (polls : List Poll) (w : ConsumerWorker)
      → ((run codec deliver polls w).processor.sent
          ≡ w.processor.sent ++ map (record_of codec) (handled polls))
        × ((run codec deliver polls w).committed ≡ w.committed ++ map position (handled polls))
  unfolding run handled handle_message
  run-records [] w = (sym (append-nil _), sym (append-nil _))
  run-records (cancelled ∷ polls) w = (sym (append-nil _), sym (append-nil _))
  run-records (ended ∷ polls) w = (sym (append-nil _), sym (append-nil _))
  run-records (stream_error e ∷ polls) w = run-records polls w
  run-records (message msg ∷ polls) w =
      let (sent, committed) = run-records polls (handle_message codec deliver msg w) in
      (
        sent
            ∙ ap (λ s. s.sent ++ map (record_of codec) (handled polls))
                (process_state codec deliver (borrowed msg) w.processor)
            ∙ append-snoc w.processor.sent (record_of codec msg)
                (map (record_of codec) (handled polls)),
        committed ∙ append-snoc w.committed (position msg) (map position (handled polls)),
      )

  -- After a run that starts below the wrap-around, the counter of consumed messages and the sum of
  -- the counters of routed messages have both grown by the number of messages taken, modulo 2^64.
  pub run-counters :
      (polls : List Poll) (w : ConsumerWorker)
      → w.processor.metrics.events_consumed < 2 ^ 64
      → ((run codec deliver polls w).processor.metrics.events_consumed
          ≡ (w.processor.metrics.events_consumed + length (handled polls)) % 2 ^ 64)
        × (routed_total (run codec deliver polls w).processor.metrics
            ≡ (routed_total w.processor.metrics + length (handled polls)) % 2 ^ 64)
  unfolding run handled handle_message
  run-counters [] w h = (omega arith, omega arith)
  run-counters (cancelled ∷ polls) w h = (omega arith, omega arith)
  run-counters (ended ∷ polls) w h = (omega arith, omega arith)
  run-counters (stream_error e ∷ polls) w h = run-counters polls w h
  run-counters (message msg ∷ polls) w h =
      let after = ap (λ s. s.metrics) (process_state codec deliver (borrowed msg) w.processor) in
      let (consumed, routed) = counted_lem codec (borrowed msg) w.processor.metrics in
      let consumed' = ap (λ m. m.events_consumed) after ∙ consumed in
      let routed' = ap routed_total after ∙ routed in
      let (c, r) = run-counters polls (handle_message codec deliver msg w) (omega arith) in
      (omega arith, omega arith)
