-- ===== src/Pipeline/Router.antt =====
-- kafka-pipeline/src/event_router.rs: the router from `aigis.events.raw` to the typed topics.
-- The JSON codec and the delivery of a record by the Kafka producer are parameters.
use Prim.Native.String
use aigis_zero.Json.{Value, string, object, Bytes, Codec, get, as_str, insert}
use aigis_zero.Pipeline.Metrics.{PipelineMetrics, inc_consumed, inc_routed, inc_errors}
use aigis_zero.Prelude.{
  String, List, [], ◌∷◌, ◌++◌, Option, none, some, not, Result, ok, err, if◌then◌else◌, str_eq,
  one_of, and_then, unwrap_or, ℤ, map_err,
}

-- The value bytes of a header: a text, or the decimal text of an integer.
pub data HeaderValue : Type 0 where
  text : String → HeaderValue
  decimal : ℤ → HeaderValue

-- `FutureRecord`
pub record FutureRecord : Type 0 where
  pub topic : String
  pub payload : Bytes
  pub key : Bytes
  pub headers : List (String × HeaderValue)

-- One consumed message, as `process` receives it.
pub record Message : Type 0 where
  pub key : Option Bytes
  pub payload : Bytes
  pub topic : String
  pub partition : ℤ
  pub offset : ℤ

-- The router's counters, and the records that it has handed to the producer, in order.
pub record EventRouterProcessor : Type 0 where
  pub metrics : PipelineMetrics
  pub sent : List FutureRecord

abbrev pub dlq : String
dlq = "aigis.events.dlq"

abbrev pub process_types : List String
process_types =
    "process_start" ∷ "process_end" ∷ "process" ∷ "process_events" ∷ "bpf_process_events"
    ∷ "processes" ∷ "osquery_result" ∷ "osquery_snapshot" ∷ "running_processes" ∷ []

abbrev pub network_types : List String
network_types =
    "network_connect" ∷ "network_listen" ∷ "socket_events" ∷ "bpf_socket_events" ∷ "network"
    ∷ "listening_ports" ∷ []

abbrev pub file_types : List String
file_types = "file_create" ∷ "file_modify" ∷ "file_delete" ∷ "file_events" ∷ "file" ∷ []

abbrev pub auth_types : List String
auth_types = "user_login" ∷ "user_logout" ∷ "logged_in_users" ∷ "auth" ∷ "users" ∷ []

unfoldable pub route_topic : String → Option String
route_topic event_type =
    if one_of process_types event_type
    then some "aigis.events.process"
    else if one_of network_types event_type
    then some "aigis.events.network"
    else if one_of file_types event_type
    then some "aigis.events.file"
    else if one_of auth_types event_type
    then some "aigis.events.auth"
    else none

-- `event_type`, or the query's name where the type is missing or "osquery".
unfoldable pub event_type_of : Value → String
event_type_of event =
    let query_name = and_then (and_then (get "payload" event) (get "query_name")) as_str in
    elim (and_then (get "event_type" event) as_str) [
      | none ↦ unwrap_or query_name "osquery"
      | some et ↦ if str_eq et "osquery" then unwrap_or query_name "osquery" else et
    ]

unfoldable pub normalized_category : String → String → String
normalized_category target_topic event_type =
    if str_eq target_topic "aigis.events.process"
    then "process"
    else if str_eq target_topic "aigis.events.network"
    then "network"
    else if str_eq target_topic "aigis.events.file"
    then "file"
    else if str_eq target_topic "aigis.events.auth"
    then "auth"
    else event_type

-- `obj.insert("event_type", …)` if the event is an object
abbrev pub normalize : String → Value → Value
normalize category (object fs) = object (insert "event_type" (string category) fs)
normalize category v = v

abbrev pub dlq_headers : Message → String → List (String × HeaderValue)
dlq_headers msg reason =
    ("x-source-topic", text msg.topic)
    ∷ ("x-original-partition", decimal msg.partition)
    ∷ ("x-original-offset", decimal msg.offset)
    ∷ ("x-error-reason", text reason)
    ∷ []

abbrev pub dlq_record : Message → String → FutureRecord
dlq_record msg reason = record {
  topic = dlq;
  payload = msg.payload;
  key = unwrap_or msg.key [];
  headers = dlq_headers msg reason;
}

module _ (codec : Codec) where
  -- `serde_json::to_vec(&normalized_event).unwrap_or_else(|_| payload.to_vec())`
  abbrev pub forward_payload : Value → Bytes → Bytes
  forward_payload v payload = elim (codec.to_vec v) [ ok bytes ↦ bytes | err _ ↦ payload ]

  -- The record for a parsed event with its target topic.
  unfoldable pub outbound : Message → Value → String → String → FutureRecord
  outbound msg event event_type target_topic =
      if not (str_eq target_topic dlq)
      then record {
        topic = target_topic;
        payload =
            forward_payload (normalize (normalized_category target_topic event_type) event)
              msg.payload;
        key = unwrap_or msg.key [];
        headers = [];
      }
      else record {
        topic = target_topic;
        payload = msg.payload;
        key = unwrap_or msg.key [];
        headers = dlq_headers msg "Unclassified event type";
      }

module _ (deliver : FutureRecord → Result String (Unit {0})) where
  -- `producer.send(record).await`: the record is handed over, and delivered or not.
  abbrev pub send :
      FutureRecord → EventRouterProcessor → EventRouterProcessor × Result String (Unit {0})
  send r s = (
    record s { sent = s.sent ++ r ∷ [] },
    map_err (λ e. String.◌++◌ "Kafka send error: " e) (deliver r),
  )

  -- The branch of `process` for bytes that are no JSON: to the dead letters, and an error.
  unfoldable pub reject :
      Message → String → EventRouterProcessor → EventRouterProcessor × Result String (Unit {0})
  reject msg e s =
      let s' = record s { metrics = inc_routed dlq (inc_errors s.metrics) } in
      let (s'', sent) = send (dlq_record msg "Invalid JSON payload") s' in
      elim sent [ err e' ↦ (s'', err e') | ok _ ↦ (s'', err (String.◌++◌ "Invalid JSON: " e)) ]

module _ (codec : Codec) (deliver : FutureRecord → Result String (Unit {0})) where
  unfoldable pub route :
      Message → Value → EventRouterProcessor → EventRouterProcessor × Result String (Unit {0})
  route msg event s =
      let event_type = event_type_of event in
      let target_topic = unwrap_or (route_topic event_type) dlq in
      send deliver (outbound codec msg event event_type target_topic)
        (record s { metrics = inc_routed target_topic s.metrics })

  -- `EventRouterProcessor::process`
  unfoldable pub process :
      Message → EventRouterProcessor → EventRouterProcessor × Result String (Unit {0})
  process msg s =
      let s' = record s { metrics = inc_consumed s.metrics } in
      elim (codec.from_slice msg.payload) [
        | err e ↦ reject deliver msg e s'
        | ok event ↦ route msg event s'
      ]
