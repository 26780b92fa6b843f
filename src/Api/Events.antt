-- ===== src/Api/Events.antt =====
-- api-backend/src/kafka/consumer.rs: what of a Kafka record is stored and what is broadcast, with
-- the data of models/ws.rs and models/log.rs. serde_json's parsers, `Uuid::parse_str`, the clock,
-- fresh ids and the conversion of a float are parameters. Each of the two functions reads the clock
-- once, for one record.
use aigis_zero.Engine.Models.{Uuid, F32, five}
use aigis_zero.Json.{Value, Bytes, Codec, get, as_str, as_i64}
use aigis_zero.Prelude.{
  String, Bool, not, Option, none, some, or_else, unwrap_or, is_some, and_then, Result, ok, err, ℤ,
  pos, if◌then◌else◌, str_eq, strip_prefix,
}

-- A `chrono::DateTime` is its number of nanoseconds here.
pub record NewEventLogEntity : Type 0 where
  pub event_id : Uuid
  pub node_id : Uuid
  pub event_type : String
  pub hostname : String
  pub payload : Value
  pub raw_sequence_id : Option String
  pub recorded_at : ℤ

pub record Log : Type 0 where
  pub node_id : String
  pub hostname : String
  pub event_type : String
  pub payload : Value
  pub timestamp_ns : ℤ

pub record LiveAlert : Type 0 where
  pub id : String
  pub node_id : String
  pub hostname : String
  pub severity : String
  pub mitre_technique_id : Option String
  pub description : String
  pub threat_score : F32
  pub timestamp_ns : ℤ

pub record Heartbeat : Type 0 where
  pub node_id : String
  pub agent_status : String
  pub events_buffered : ℤ
  pub timestamp_ns : ℤ

pub data LiveEvent : Type 0 where
  log : Log → LiveEvent
  alert : LiveAlert → LiveEvent
  heartbeat : Heartbeat → LiveEvent

-- What one record meets: the libraries, the clock as `parse_log_entity` and as `parse_kafka_message`
-- read it, and a fresh id.
pub record Outside : Type 0 where
  pub codec : Codec
  pub live_event : Bytes → Option LiveEvent
  pub parse_str : String → Option Uuid
  pub as_f32 : Value → Option F32
  pub now_stored : ℤ
  pub now_live : ℤ
  pub new_v4 : Uuid

-- `topic.starts_with(prefix)`
abbrev pub starts_with : String → String → Bool
starts_with topic prefix = is_some (strip_prefix prefix topic)

-- `json.get("payload").and_then(|p| p.get(key))`
abbrev pub in_payload : String → Value → Option Value
in_payload key json = and_then (get "payload" json) (get key)

-- Either of two keys of the payload.
abbrev pub in_payload_2 : String → String → Value → Option Value
in_payload_2 key other json =
    and_then (get "payload" json) (λ (p : Value). or_else (get key p) (get other p))

-- Where the functions look for a field, the same in both of them.
abbrev pub node_id_text : Value → Option String
node_id_text json =
    and_then
      (or_else (or_else (get "node_id" json) (get "agent_uuid" json))
        (in_payload_2 "agent_uuid" "node_id" json))
      as_str

abbrev pub event_type_text : Value → String
event_type_text json =
    unwrap_or
      (and_then
        (or_else (or_else (get "event_type" json) (get "query_name" json))
          (in_payload_2 "query_name" "event_type" json))
        as_str)
      "unknown"

-- `filter(|s| !s.is_empty())`
abbrev pub non_empty : Option String → Option String
non_empty none = none
non_empty (some s) = if str_eq s "" then none else some s

abbrev pub hostname_value : Value → Option String
hostname_value json = and_then (or_else (get "hostname" json) (in_payload "hostname" json)) as_str

abbrev pub hostname_text : Value → String
hostname_text json = unwrap_or (non_empty (hostname_value json)) "unknown"

abbrev pub timestamp : Value → Option ℤ
timestamp json =
    and_then (or_else (get "timestamp_ns" json) (in_payload "timestamp_ns" json)) as_i64

abbrev pub payload_value : Value → Value
payload_value json = unwrap_or (get "payload" json) json

abbrev pub sequence_id_text : Value → Option String
sequence_id_text json =
    and_then
      (or_else (or_else (get "raw_sequence_id" json) (get "sequence_id" json))
        (in_payload "sequence_id" json))
      as_str

-- `Result::ok`
abbrev pub to_option {ℓ κ} : {E : Type κ} {A : Type ℓ} → Result E A → Option A
to_option (ok a) = some a
to_option (err e) = none

module _ (out : Outside) where
  abbrev pub event_id : Value → Uuid
  event_id json =
      unwrap_or
        (and_then (and_then (or_else (get "id" json) (get "event_id" json)) as_str) out.parse_str)
        out.new_v4

  abbrev pub log_entity : Value → Uuid → NewEventLogEntity
  log_entity json node_id = record {
    event_id = event_id json;
    node_id = node_id;
    event_type = event_type_text json;
    hostname = hostname_text json;
    payload = payload_value json;
    raw_sequence_id = sequence_id_text json;
    recorded_at = unwrap_or (timestamp json) out.now_stored;
  }

  -- The fields of a parsed record, from the first `?` that fails on none.
  unfoldable pub entity_of_json : Value → Option NewEventLogEntity
  entity_of_json json =
      and_then (and_then (node_id_text json) out.parse_str)
        (λ (node_id : Uuid). some (log_entity json node_id))

  -- `parse_log_entity`
  unfoldable pub parse_log_entity : String → Bytes → Option NewEventLogEntity
  parse_log_entity topic payload =
      if not (starts_with topic "aigis.events")
      then none
      else and_then (to_option (out.codec.from_slice payload)) entity_of_json

  abbrev pub text_or : String → Option Value → String
  text_or default v = unwrap_or (and_then v as_str) default

  -- The arms of `parse_kafka_message`.
  unfoldable pub live_log : Value → LiveEvent
  live_log json = log (record {
    node_id = unwrap_or (node_id_text json) "unknown";
    hostname = hostname_text json;
    event_type = event_type_text json;
    payload = payload_value json;
    timestamp_ns = unwrap_or (timestamp json) out.now_live;
  })

  unfoldable pub live_alert : Value → LiveEvent
  live_alert json = alert (record {
    id = text_or "" (or_else (get "alert_id" json) (get "id" json));
    node_id = text_or "" (or_else (get "node_id" json) (get "agent_uuid" json));
    hostname = unwrap_or (hostname_value json) "";
    severity = text_or "medium" (get "severity" json);
    mitre_technique_id = and_then (get "mitre_technique_id" json) as_str;
    description = text_or "" (get "description" json);
    threat_score = unwrap_or (and_then (get "threat_score" json) out.as_f32) five;
    timestamp_ns = unwrap_or (timestamp json) out.now_live;
  })

  unfoldable pub live_heartbeat : Value → LiveEvent
  live_heartbeat json = heartbeat (record {
    node_id = text_or "" (or_else (get "node_id" json) (get "agent_uuid" json));
    agent_status = text_or "healthy" (or_else (get "agent_status" json) (get "status" json));
    events_buffered = unwrap_or (and_then (get "events_buffered" json) as_i64) (pos 0);
    timestamp_ns = unwrap_or (timestamp json) out.now_live;
  })

  abbrev pub live_of_json : String → Value → Option LiveEvent
  live_of_json topic json =
      if starts_with topic "aigis.events"
      then some (live_log json)
      else if str_eq topic "aigis.alerts"
      then some (live_alert json)
      else if str_eq topic "aigis.health"
      then some (live_heartbeat json)
      else none

  -- `parse_kafka_message`
  unfoldable pub parse_kafka_message : String → Bytes → Option LiveEvent
  parse_kafka_message topic payload =
      or_else (out.live_event payload)
        (and_then (to_option (out.codec.from_slice payload)) (live_of_json topic))
