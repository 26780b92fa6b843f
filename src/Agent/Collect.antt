-- ===== src/Agent/Collect.antt =====
-- From a query's answer to the buffer: `build_result` of agent/crates/osquery-client/src/scheduler.rs,
-- `encode_osquery_result` and the buffering task of agent/crates/agent-core/src/lib.rs, and
-- `encode_result` with the loop of orchestrator.rs there. What serde_json makes of a struct is a
-- parameter, `None` where it fails.
pub mod Shutdown
pub mod Journey
mod Tests
use aigis_zero.Agent.Buffer.{EventBuffer, PushFaults, push}
use aigis_zero.Agent.Osquery.{ResultAction, as_str}
use aigis_zero.Fleet.Ingest.{int}
use aigis_zero.Json.{
  Value, Values, Fields, null, string, number, array, nil, cons, object, end, field,
}
use aigis_zero.Prelude.{
  ℕ, String, List, [], ◌∷◌, map, Option, none, some, Result, ok, err, ℤ, pos, unwrap_or, is_some,
}

-- A column's name with its value.
pub record ColumnEntry : Type 0 where
  pub name : String
  pub value : String

pub record OsqueryResultRow : Type 0 where
  pub columns : List ColumnEntry

pub record OsqueryResult : Type 0 where
  pub query_name : String
  pub agent_uuid : String
  pub timestamp_ns : ℤ
  pub rows : List OsqueryResultRow
  pub action : ResultAction

-- A row as the query's answer has it, its entries in the order of the map's iteration.
abbrev pub OsqueryRow : Type 0
OsqueryRow = List (String × String)

abbrev pub columns_of : OsqueryRow → List ColumnEntry
columns_of [] = []
columns_of ((k, v) ∷ row) = record { name = k; value = v } ∷ columns_of row

-- `QueryScheduler::build_result`; the clock reads `none` out of the range of nanoseconds.
unfoldable pub build_result :
    String → String → List OsqueryRow → ResultAction → Option ℤ → OsqueryResult
build_result query_name agent_uuid rows action now = record {
  query_name = query_name;
  agent_uuid = agent_uuid;
  timestamp_ns = unwrap_or now (pos 0);
  rows = map (λ row. record { columns = columns_of row }) rows;
  action = action;
}

abbrev pub entries_value : List ColumnEntry → Values
entries_value [] = nil
entries_value (c ∷ cs) =
    cons (object (field "name" (string c.name) (field "value" (string c.value) end)))
      (entries_value cs)

abbrev pub rows_value : List OsqueryResultRow → Values
rows_value [] = nil
rows_value (r ∷ rows) =
    cons (object (field "columns" (array (entries_value r.columns)) end)) (rows_value rows)

-- The derived `Serialize`, its keys in the order of serde_json's map.
unfoldable pub result_value : OsqueryResult → Value
unfolding as_str
result_value r = object (
    field "action" (string (as_str r.action)) (
      field "agent_uuid" (string r.agent_uuid) (
        field "query_name" (string r.query_name) (
          field "rows" (array (rows_value r.rows))
            (field "timestamp_ns" (number (int r.timestamp_ns)) end)))))

pub data EventType : Type 0 where
  osquery process file network : EventType

-- `event_type as i32`
abbrev pub as_i32 : EventType → ℤ
as_i32 osquery = pos 0
as_i32 process = pos 1
as_i32 file = pos 2
as_i32 network = pos 3

-- The event that the buffer keeps as JSON.
pub record AgentEvent : Type 0 where
  pub node_id : String
  pub event_type : ℤ
  pub payload : Value
  pub timestamp_ns : ℤ
  pub sequence_id : String

-- What the text of an event parses to.
unfoldable pub event_value : AgentEvent → Value
event_value e = object (
    field "event_type" (number (int e.event_type)) (
      field "node_id" (string e.node_id) (
        field "payload" e.payload (
          field "sequence_id" (string e.sequence_id)
            (field "timestamp_ns" (number (int e.timestamp_ns)) end)))))

-- The event of a result, with its payload and a fresh id.
abbrev pub event_of : String → OsqueryResult → Value → AgentEvent
event_of sequence_id r payload = record {
  node_id = r.agent_uuid;
  event_type = as_i32 osquery;
  payload = payload;
  timestamp_ns = r.timestamp_ns;
  sequence_id = sequence_id;
}

-- A result that arrives, with the fresh id and what its push meets.
pub record Arrival : Type 0 where
  pub result : OsqueryResult
  pub sequence_id : String
  pub faults : PushFaults
  pub now : ℕ

-- A turn of the buffering task: a result, the end of the scheduler's channel, or the shutdown with
-- the results that wait in the channel.
pub data Turn : Type 0 where
  received : Arrival → Turn
  channel_closed : Turn
  cancelled : List Arrival → Turn

module _ (to_value : OsqueryResult → Option Value) (to_string : AgentEvent → Option String) where
  abbrev pub printed : String → OsqueryResult → Option Value → Option String
  printed sequence_id r none = none
  printed sequence_id r (some payload) = to_string (event_of sequence_id r payload)

  -- `encode_osquery_result`
  unfoldable pub encode_osquery_result : String → OsqueryResult → Option String
  encode_osquery_result sequence_id r = printed sequence_id r (to_value r)

  -- `encode_result` of the orchestrator: what cannot be printed becomes null, or the empty text.
  unfoldable pub encode_result : String → OsqueryResult → String
  encode_result sequence_id r =
      unwrap_or (to_string (event_of sequence_id r (unwrap_or (to_value r) null))) ""

  abbrev pub push_json : Arrival → Option String → EventBuffer → EventBuffer
  push_json a none b = b
  push_json a (some json) b = (push a.faults a.now json b).0

  -- A result into the buffer; a failure is only logged.
  unfoldable pub buffer_one : Arrival → EventBuffer → EventBuffer
  buffer_one a b = push_json a (encode_osquery_result a.sequence_id a.result) b

  -- The drain of the channel at the shutdown.
  unfoldable pub drain_channel : List Arrival → EventBuffer → EventBuffer
  drain_channel [] b = b
  drain_channel (a ∷ waiting) b = drain_channel waiting (buffer_one a b)

  -- The buffering task of `AgentCore::run`.
  unfoldable pub collect : List Turn → EventBuffer → EventBuffer
  collect [] b = b
  collect (cancelled waiting ∷ turns) b = drain_channel waiting b
  collect (channel_closed ∷ turns) b = b
  collect (received a ∷ turns) b = collect turns (buffer_one a b)

  -- The loop of the orchestrator's `run`, up to the shutdown.
  unfoldable pub gather : List Arrival → EventBuffer → EventBuffer
  gather [] b = b
  gather (a ∷ arrivals) b =
      gather arrivals (push a.faults a.now (encode_result a.sequence_id a.result) b).0
