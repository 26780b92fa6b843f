-- ===== src/Api/Agreement.antt =====
-- That the stored row and the broadcast event of one record agree, and what becomes of the fleet
-- server's envelope.
use aigis_zero.Agent.Drain.{AgentEvent}
use aigis_zero.Api.Events.{
  Outside, NewEventLogEntity, LiveEvent, log, starts_with, node_id_text, entity_of_json,
  parse_log_entity, live_log, timestamp, parse_kafka_message,
}
use aigis_zero.Engine.Models.{Uuid}
use aigis_zero.Fleet.Ingest.{int, envelope}
use aigis_zero.Json.{Value, number, Bytes, as_i64, get, get_field}
use aigis_zero.Prelude.{
  String, none, some, ok, unwrap_or, ℤ, pos, negsuc, ◌<◌, ◌^◌, Option-cases, Bool-cases,
  Result-cases, ◌≡◌, refl, subst, ap, inl, inr, arith,
}

-- The broadcast event that matches a stored row, with the node's id as the record spells it, and a
-- time.
abbrev pub live_of_entity : NewEventLogEntity → String → ℤ → LiveEvent
live_of_entity e node_id t = log (record {
  node_id = node_id;
  hostname = e.hostname;
  event_type = e.event_type;
  payload = e.payload;
  timestamp_ns = t;
})

module _ (out : Outside) where
  -- The row's node is the one that the event names, both times are the record's, or where it has
  -- none, each is the clock's as its function read it, and all else is the same.
  pub record Agrees (json : Value) (event : LiveEvent) (e : NewEventLogEntity) : Type 0 where
    pub node : String
    pub names : out.parse_str node ≡ some e.node_id
    pub stored_at : e.recorded_at ≡ unwrap_or (timestamp json) out.now_stored
    pub same : event ≡ live_of_entity e node (unwrap_or (timestamp json) out.now_live)

  live_log-Agrees :
      (json : Value) (e : NewEventLogEntity)
      → entity_of_json out json ≡ some e
      → Agrees json (live_log out json) e
  unfolding entity_of_json live_log
  live_log-Agrees json e h = elim (Option-cases (node_id_text json)) [
    | inl p ↦ let h' = rw p at h in cc
    | inr (text, p) ↦ elim (Option-cases (out.parse_str text)) [
      | inl q ↦ let h' = rw (p, q) at h in cc
      | inr (id, q) ↦
          let h' = rw (p, q) at h in
          subst (Agrees json (live_log out json)) (ap (λ o. unwrap_or o e) h')
            (record { node = text; names = q; stored_at = refl; same = rw p refl })
    ]
  ]

  -- A record that is stored, and that is no ready-made live event, is also broadcast, as a log with
  -- the row's event type, host name and payload, for the node whose id the row has, and, if the
  -- record has a time, with that time, as the row; else both have the time at which each was made.
  pub parse_kafka_message-parse_log_entity :
      (topic : String) (payload : Bytes) (e : NewEventLogEntity)
      → out.live_event payload ≡ none
      → parse_log_entity out topic payload ≡ some e
      → (json : Value) × (event : LiveEvent) × (out.codec.from_slice payload ≡ ok json)
        × (parse_kafka_message out topic payload ≡ some event)
        × Agrees json event e
  unfolding parse_log_entity parse_kafka_message
  parse_kafka_message-parse_log_entity topic payload e none_ready h =
      elim (Bool-cases (starts_with topic "aigis.events")) [
        | inr t ↦ let h' = rw t at h in cc
        | inl t ↦ elim (Result-cases (out.codec.from_slice payload)) [
          | inr (m, p) ↦ let h' = rw (t, p) at h in cc
          | inl (json, p) ↦ (
            json,
            live_log out json,
            p,
            rw (none_ready, p, t) refl,
            live_log-Agrees json e (rw (t, p) at h),
          )
        ]
      ]

-- The range of an `i64`.
abbrev pub IsI64 : ℤ → Type 0
IsI64 (pos n) = n < 2 ^ 63
IsI64 (negsuc n) = n < 2 ^ 63

as_i64-int : (t : ℤ) → IsI64 t → as_i64 (number (int t)) ≡ some t
as_i64-int (pos n) h = ground arith
as_i64-int (negsuc n) h = refl

timestamp-envelope :
    (e : AgentEvent) (id : String) (payload : Value)
    → IsI64 e.timestamp_ns
    → timestamp (envelope e id payload) ≡ some e.timestamp_ns
unfolding get get_field
timestamp-envelope e id payload h = as_i64-int e.timestamp_ns h

-- The fleet server's envelope of an event is stored, if the event's node id is a UUID, with that
-- node, the event's type, payload, sequence id and time, the event's own id if that is a UUID, and
-- an unknown host name.
pub entity_of_json-envelope :
    (out : Outside) (e : AgentEvent) (id : String) (payload : Value) (node_id : Uuid)
    → out.parse_str e.node_id ≡ some node_id
    → IsI64 e.timestamp_ns
    → entity_of_json out (envelope e id payload)
      ≡ some (record {
        event_id = unwrap_or (out.parse_str id) out.new_v4;
        node_id = node_id;
        event_type = e.event_type;
        hostname = "unknown";
        payload = payload;
        raw_sequence_id = some e.sequence_id;
        recorded_at = e.timestamp_ns;
      })
unfolding entity_of_json get get_field
entity_of_json-envelope out e id payload node_id p h =
    rw (p, timestamp-envelope e id payload h) refl
