-- ===== src/Fleet/Acks.antt =====
-- The acknowledgements of an event stream against the records that reached the broker.
use aigis_zero.Agent.Drain.{AgentEvent}
use aigis_zero.Fleet.Enrollment.{internal}
use aigis_zero.Fleet.Ingest.{
  TopicRecord, Broker, delivered, answered, Outside, record_for, ingest_event, next_drawn,
  event_stream,
}
use aigis_zero.Prelude.{
  ℕ, String, List, [], ◌∷◌, ◌++◌, map, none, some, Result, ok, err, Result-cases, ◌≡◌, sym, ap, ◌∙◌,
  inl, inr, append-nil, append-snoc,
}

module _ (out : Outside) (topic : String) where
  -- Of the events up to the stream's first error, those whose record the broker takes.
  unfoldable pub taken : ℕ → List (Result String AgentEvent) → List (AgentEvent × TopicRecord)
  taken drawn [] = []
  taken drawn (err e ∷ inbound) = []
  taken drawn (ok e ∷ inbound) =
      let rest = taken (next_drawn e drawn) inbound in
      elim (out.deliver (record_for out topic e drawn)) [
        | ok _ ↦ (e, record_for out topic e drawn) ∷ rest
        | err _ ↦ rest
      ]

  abbrev pub ids : List (AgentEvent × TopicRecord) → List String
  ids ts = map (λ (t : AgentEvent × TopicRecord). t.0.sequence_id) ts

  abbrev pub records : List (AgentEvent × TopicRecord) → List TopicRecord
  records ts = map (λ (t : AgentEvent × TopicRecord). t.1) ts

  abbrev after : AgentEvent → Broker → Result String (Unit {0}) → Broker
  after e b (ok _) = record {
    published = b.published ++ record_for out topic e b.drawn ∷ [];
    drawn = next_drawn e b.drawn;
  }
  after e b (err _) = record b { drawn = next_drawn e b.drawn }

  ingest_event-ok :
      (e : AgentEvent) (b : Broker) (u : Unit {0})
      → out.deliver (record_for out topic e b.drawn) ≡ ok u
      → ingest_event out topic e b ≡ (after e b (ok u), ok (some e.sequence_id))
  unfolding ingest_event
  ingest_event-ok e b u p =
      ap
        (λ d. answered out e (
          delivered out d (record_for out topic e b.drawn)
            (record b { drawn = next_drawn e b.drawn })))
        p

  ingest_event-err :
      (e : AgentEvent) (b : Broker) (m : String)
      → out.deliver (record_for out topic e b.drawn) ≡ err m
      → ingest_event out topic e b
        ≡ (after e b (err m), err (internal "Failed to publish event to message broker"))
  unfolding ingest_event
  ingest_event-err e b m p =
      ap
        (λ d. answered out e (
          delivered out d (record_for out topic e b.drawn)
            (record b { drawn = next_drawn e b.drawn })))
        p

  -- While the agent reads, the commands are the sequence ids of exactly the events whose record
  -- reached the broker, and both are in the order of the stream.
  pub event_stream_lem :
      (inbound : List (Result String AgentEvent)) (b : Broker) (acks : List String)
      → let (b', c') =
          event_stream out topic inbound b (record { acks = acks; closes_after = none }) in
        (b'.published ≡ b.published ++ records (taken b.drawn inbound))
        × (c'.acks ≡ acks ++ ids (taken b.drawn inbound))
  unfolding event_stream taken ingest_event
  event_stream_lem [] b acks = (sym (append-nil b.published), sym (append-nil acks))
  event_stream_lem (err e ∷ inbound) b acks = (sym (append-nil b.published), sym (append-nil acks))
  event_stream_lem (ok e ∷ inbound) b acks =
      let r = record_for out topic e b.drawn in
      let rest = taken (next_drawn e b.drawn) inbound in
      elim (Result-cases (out.deliver r)) [
        | inr (m, p) ↦
            rw (event_stream, taken, ingest_event-err e b m p, p)
              (event_stream_lem inbound (record b { drawn = next_drawn e b.drawn }) acks)
        | inl (u, p) ↦
            let ih =
              event_stream_lem inbound
                (record { published = b.published ++ r ∷ []; drawn = next_drawn e b.drawn })
                (acks ++ e.sequence_id ∷ []) in
            rw (event_stream, taken, ingest_event-ok e b u p, p)
              (
                ih.0 ∙ append-snoc b.published r (records rest),
                ih.1 ∙ append-snoc acks e.sequence_id (ids rest),
              )
      ]
