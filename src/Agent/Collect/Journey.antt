-- ===== src/Agent/Collect/Journey.antt =====
-- The way of a query's result: encoded by the agent, drained and sent, ingested by the fleet
-- server, and routed by the pipeline.
use aigis_zero.Agent.Collect.{
  OsqueryResult, AgentEvent, result_value, event_value, event_of, encode_osquery_result,
}
use aigis_zero.Agent.Drain as Wire
use aigis_zero.Agent.Drain.{proto_of, event_type_name, parse_events}
use aigis_zero.Agent.Drain.Sending.{protos}
use aigis_zero.Fleet.Ingest.{
  int, envelope, Outside, record_for, event_id, payload_val, payload_bytes,
}
use aigis_zero.Json.{Value, Bytes, Codec, get, get_field, number_as_i64}
use aigis_zero.Pipeline.Records.{emitted, process_state}
use aigis_zero.Pipeline.Router.{
  FutureRecord, Message, EventRouterProcessor, dlq, route_topic, event_type_of, outbound, process,
}
use aigis_zero.Prelude.{
  ℕ, ◌^◌, ◌<◌, String, [], ◌∷◌, ◌++◌, Option, some, Result, ok, ℤ, pos, negsuc, ◌≡◌, refl, ap, ◌∙◌,
  arith, str_eq, as_bytes, unwrap_or, Bool-cases, inl, inr,
}

-- `serde_json` prints the value as these bytes, and reads them back.
abbrev pub Prints : Codec → Value → Bytes → Type 0
Prints codec v bytes = (codec.to_vec v ≡ ok bytes) × (codec.from_slice bytes ≡ ok v)

-- An `i64`
abbrev pub IsI64 : ℤ → Type 0
IsI64 (pos n) = n < 2 ^ 63
IsI64 (negsuc n) = n < 2 ^ 63

-- The proto message of a result.
abbrev pub message_of : String → OsqueryResult → Bytes → Wire.AgentEvent
message_of sequence_id r payload = record {
  node_id = r.agent_uuid;
  event_type = "osquery";
  payload = payload;
  timestamp_ns = r.timestamp_ns;
  sequence_id = sequence_id;
}

as_i64-int : (i : ℤ) → IsI64 i → number_as_i64 (int i) ≡ some i
as_i64-int (pos n) h = ground arith
as_i64-int (negsuc n) h = refl

module _ (codec : Codec) (r : OsqueryResult) (sequence_id : String) (payload : Bytes)
    (in_range : IsI64 r.timestamp_ns) (printed : Prints codec (result_value r) payload) where
  proto_of-event_value :
      proto_of codec (event_value (event_of sequence_id r (result_value r)))
      ≡ some (message_of sequence_id r payload)
  unfolding proto_of event_value get get_field event_type_name
  proto_of-event_value =
      rw (printed.0, proto_of)
        (ap
          (λ t.
            some (record (message_of sequence_id r payload) { timestamp_ns = unwrap_or t (pos 0) }))
          (as_i64-int r.timestamp_ns in_range))

event_type_of-envelope :
    (r : OsqueryResult) (sequence_id id : String) (payload : Bytes)
    → event_type_of (envelope (message_of sequence_id r payload) id (result_value r)) ≡ r.query_name
unfolding event_type_of result_value get get_field
event_type_of-envelope r sequence_id id payload = refl

record_for-payload :
    (out : Outside) (topic : String) (drawn : ℕ) (e : Wire.AgentEvent) (v : Value) (bytes : Bytes)
    → out.codec.from_slice e.payload ≡ ok v
    → out.codec.to_vec (envelope e (event_id out e drawn) v) ≡ ok bytes
    → (record_for out topic e drawn).payload ≡ bytes
unfolding record_for
record_for-payload out topic drawn e v bytes read written =
    rw (read, payload_val, payload_bytes) (rw (written, payload_bytes) refl)

outbound-topic :
    (codec : Codec) (msg : Message) (event : Value) (event_type target : String)
    → (outbound codec msg event event_type target).topic ≡ target
unfolding outbound
outbound-topic codec msg event event_type target = elim (Bool-cases (str_eq target dlq)) [
  | inl e ↦ rw e refl
  | inr e ↦ rw e refl
]

-- A result of a query travels under the name of the query: when serde_json prints it, the event
-- around it and the envelope of the fleet server, and reads these back, the text that the agent
-- buffers for it is drained and sent as one event of type "osquery" with the agent's id, the
-- result's time and the fresh id; and the record that the fleet server publishes for that event is
-- routed to the topic of the query's name, or to the dead letters where that has none.
pub result-route_topic :
    (out : Outside) (to_value : OsqueryResult → Option Value)
    (to_string : AgentEvent → Option String) (deliver : FutureRecord → Result String (Unit {0}))
    (r : OsqueryResult) (sequence_id text : String) (payload bytes : Bytes) (topic : String)
    (drawn : ℕ) (msg : Message) (s : EventRouterProcessor)
    → IsI64 r.timestamp_ns
    → to_value r ≡ some (result_value r)
    → to_string (event_of sequence_id r (result_value r)) ≡ some text
    → out.codec.from_slice (as_bytes text)
      ≡ ok (event_value (event_of sequence_id r (result_value r)))
    → Prints out.codec (result_value r) payload
    → Prints out.codec
        (envelope
          (message_of sequence_id r payload)
          (event_id out (message_of sequence_id r payload) drawn)
          (result_value r))
        bytes
    → (encode_osquery_result to_value to_string sequence_id r ≡ some text)
      × (protos out.codec (parse_events out.codec (text ∷ []))
          ≡ message_of sequence_id r payload ∷ [])
      × ((sent : FutureRecord) × ((process out.codec deliver
              (record msg {
                payload = (record_for out topic (message_of sequence_id r payload) drawn).payload;
              })
              s).0.sent
            ≡ s.sent ++ sent ∷ [])
          × (sent.topic ≡ unwrap_or (route_topic r.query_name) dlq))
unfolding encode_osquery_result parse_events protos
result-route_topic out to_value to_string deliver r sequence_id text payload bytes topic drawn msg s
      in_range shown written parsed printed wrapped =
    let e = message_of sequence_id r payload in
    let id = event_id out e drawn in
    let name = event_type_of-envelope r sequence_id id payload in
    let same = proto_of-event_value out.codec r sequence_id payload in_range printed in
    (
      rw (shown, written) refl,
      rw (parsed, parse_events) (rw (same, protos) refl),
      rw
          (
            record_for-payload out topic drawn e (result_value r) bytes printed.1 wrapped.0,
            process_state out.codec deliver (record msg { payload = bytes }) s,
          )
          (rw (wrapped.1, emitted)
            (
              _,
              refl,
              outbound-topic out.codec (record msg { payload = bytes })
                    (envelope e id (result_value r)) _ _
                  ∙ ap (λ n. unwrap_or (route_topic n) dlq) name,
            )),
    )
