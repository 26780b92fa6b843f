-- ===== src/Fleet/Ingest.antt =====
-- Events from agents: `ingest_event` of fleet-server/crates/fleet-server-bin/src/ports.rs,
-- `publish` of fleet-server/crates/kafka-handler/src/lib.rs, and the loop of `event_stream` in
-- fleet-server/crates/grpc-listener/src/service.rs. The JSON codec, the lossy reading of bytes,
-- fresh ids and the broker's answer to a record are parameters.
use aigis_zero.Agent.Drain.{AgentEvent}
use aigis_zero.Fleet.Enrollment.{Status, internal}
use aigis_zero.Json.{
  Value, string, number, Number, pos_int, neg_int, object, end, field, Bytes, Codec,
}
use aigis_zero.Prelude.{
  ℕ, zero, suc, String, List, [], ◌∷◌, ◌++◌, Option, none, some, Result, ok, err, ℤ, pos, negsuc,
  if◌then◌else◌, str_eq,
}

abbrev pub int : ℤ → Number
int (pos n) = pos_int n
int (negsuc n) = neg_int n

-- The `json!` envelope, its keys in the order of serde_json's map.
abbrev pub envelope : AgentEvent → String → Value → Value
envelope e event_id payload = object (
    field "event_type" (string e.event_type) (
      field "hostname" (string "") (
        field "id" (string event_id) (
          field "node_id" (string e.node_id) (
            field "payload" payload (
              field "raw_sequence_id" (string e.sequence_id)
                (field "timestamp_ns" (number (int e.timestamp_ns)) end)))))))

pub record TopicRecord : Type 0 where
  pub topic : String
  pub key : String
  pub payload : Bytes

-- What reached the broker, and how many ids were drawn.
pub record Broker : Type 0 where
  pub published : List TopicRecord
  pub drawn : ℕ

pub record Outside : Type 0 where
  pub codec : Codec
  pub from_utf8_lossy : Bytes → String
  pub new_v4 : ℕ → String
  pub deliver : TopicRecord → Result String (Unit {0})

-- How many ids are drawn after an event: one for each that has no sequence id.
abbrev pub next_drawn : AgentEvent → ℕ → ℕ
next_drawn e drawn = if str_eq e.sequence_id "" then suc drawn else drawn

module _ (out : Outside) where
  -- The payload as JSON, or its text under "raw".
  abbrev pub payload_val : Bytes → Value
  payload_val payload = elim (out.codec.from_slice payload) [
    | ok v ↦ v
    | err e ↦ object (field "raw" (string (out.from_utf8_lossy payload)) end)
  ]

  abbrev pub event_id : AgentEvent → ℕ → String
  event_id e drawn = if str_eq e.sequence_id "" then out.new_v4 drawn else e.sequence_id

  abbrev pub payload_bytes : AgentEvent → ℕ → Bytes
  payload_bytes e drawn =
      elim (out.codec.to_vec (envelope e (event_id e drawn) (payload_val e.payload))) [
        | ok bytes ↦ bytes
        | err _ ↦ e.payload
      ]

  -- The record that an event becomes.
  unfoldable pub record_for : String → AgentEvent → ℕ → TopicRecord
  record_for topic e drawn = record {
    topic = topic;
    key = e.node_id;
    payload = payload_bytes e drawn;
  }

  abbrev pub delivered :
      Result String (Unit {0}) → TopicRecord → Broker → Broker × Result String (Unit {0})
  delivered (ok _) r b = (record b { published = b.published ++ r ∷ [] }, ok tt)
  delivered (err e) r b = (b, err e)

  -- `KafkaPublisher::publish`
  abbrev pub publish : TopicRecord → Broker → Broker × Result String (Unit {0})
  publish r b = delivered (out.deliver r) r b

  abbrev pub answered :
      AgentEvent → Broker × Result String (Unit {0}) → Broker × Result Status (Option String)
  answered e (b, ok _) = (b, ok (some e.sequence_id))
  answered e (b, err _) = (b, err (internal "Failed to publish event to message broker"))

  -- `KafkaEventIngest::ingest_event`; the answer is the sequence id to acknowledge.
  unfoldable pub ingest_event :
      String → AgentEvent → Broker → Broker × Result Status (Option String)
  ingest_event topic e b =
      answered e (publish (record_for topic e b.drawn) (record b { drawn = next_drawn e b.drawn }))

-- The command channel: the acknowledgements put on it, and after how many more its receiver goes.
pub record Commands : Type 0 where
  pub acks : List String
  pub closes_after : Option ℕ

abbrev pub send_with : Option ℕ → String → Commands → Option Commands
send_with none id c = some (record { acks = c.acks ++ id ∷ []; closes_after = none })
send_with (some zero) id c = none
send_with (some (suc k)) id c = some (record { acks = c.acks ++ id ∷ []; closes_after = some k })

-- `cmd_tx.send(Ok(cmd)).await`
abbrev pub send_ack : String → Commands → Option Commands
send_ack id c = send_with c.closes_after id c

module _ (out : Outside) (topic : String) where
  -- The loop of `event_stream` over what the agent sends.
  unfoldable pub event_stream :
      List (Result String AgentEvent) → Broker → Commands → Broker × Commands
  event_stream [] b c = (b, c)
  event_stream (err e ∷ inbound) b c = (b, c)
  event_stream (ok e ∷ inbound) b c =
      let (b', r) = ingest_event out topic e b in
      elim r [
        | err status ↦ event_stream inbound b' c
        | ok none ↦ event_stream inbound b' c
        | ok (some sequence_id) ↦ elim (send_ack sequence_id c) [
          | none ↦ (b', c)
          | some c' ↦ event_stream inbound b' c'
        ]
      ]
