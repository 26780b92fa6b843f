-- ===== src/Pipeline/Records.antt =====
-- `process` without its error plumbing: the one record that a message leads to, and the state.
use aigis_zero.Json.{Value, Codec}
use aigis_zero.Pipeline.Metrics.{PipelineMetrics, inc_consumed, inc_routed, inc_errors}
use aigis_zero.Pipeline.Router.{
  FutureRecord, Message, EventRouterProcessor, dlq, dlq_record, route_topic, event_type_of,
  outbound, process, reject, route,
}
use aigis_zero.Prelude.{
  String, [], ◌∷◌, ◌++◌, Result, ok, err, ◌≡◌, refl, inl, inr, unwrap_or, Result-cases,
}

-- The topic for a parsed event.
abbrev pub target : Value → String
target event = unwrap_or (route_topic (event_type_of event)) dlq

module _ (codec : Codec) where
  -- The record that a message leads to.
  abbrev pub emitted : Message → FutureRecord
  emitted msg = elim (codec.from_slice msg.payload) [
    | err _ ↦ dlq_record msg "Invalid JSON payload"
    | ok event ↦ outbound codec msg event (event_type_of event) (target event)
  ]

  -- The counters after a message.
  abbrev pub counted : Message → PipelineMetrics → PipelineMetrics
  counted msg m = elim (codec.from_slice msg.payload) [
    | err _ ↦ inc_routed dlq (inc_errors (inc_consumed m))
    | ok event ↦ inc_routed (target event) (inc_consumed m)
  ]

module _ (codec : Codec) (deliver : FutureRecord → Result String (Unit {0})) where
  -- The state after `process` does not depend on the outcome of the delivery.
  pub process_state :
      (msg : Message) (s : EventRouterProcessor)
      → (process codec deliver msg s).0
        ≡ record { metrics = counted codec msg s.metrics; sent = s.sent ++ emitted codec msg ∷ [] }
  unfolding process reject route
  process_state msg s = elim (Result-cases (codec.from_slice msg.payload)) [
    | inl (event, e) ↦ rw (e, process, counted, emitted) refl
    | inr (m, e) ↦
        rw (e, process, counted, emitted)
          (elim (Result-cases (deliver (dlq_record msg "Invalid JSON payload"))) [
            | inl (u, d) ↦ rw (d, reject) refl
            | inr (m', d) ↦ rw (d, reject) refl
          ])
  ]
