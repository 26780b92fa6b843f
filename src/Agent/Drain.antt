-- ===== src/Agent/Drain.antt =====
-- The event drain loop of agent/crates/agent-bin/src/main.rs, with `FleetClient::send_events` of
-- agent/crates/fleet-client/src/lib.rs. The JSON codec is a parameter; the other task's pushes
-- between the drain and the outcome of the send are an argument.
pub mod Sending
pub mod Retry
mod Tests
use Prim.Native.String
use aigis_zero.Agent.Buffer.{EventBuffer, PushFaults, push, drain}
use aigis_zero.Json.{Value, null, Bytes, Codec, get, as_str, as_i64}
use aigis_zero.Prelude.{
  ℕ, zero, suc, ◌+◌, ◌^◌, String, Bool, true, false, List, [], ◌∷◌, ◌++◌, Option, none, some,
  Result, ok, err, ℤ, pos, negsuc, unwrap_or, if◌then◌else◌, as_bytes, to_string, ◌==◌,
}

-- The proto message that is put on the outbound channel.
pub record AgentEvent : Type 0 where
  pub node_id : String
  pub event_type : String
  pub payload : Bytes
  pub timestamp_ns : ℤ
  pub sequence_id : String

pub record EventAck : Type 0 where
  pub success : Bool
  pub error : Option String

-- `val["key"]`, which is `Null` where there is no such key.
abbrev pub index : String → Value → Value
index key val = unwrap_or (get key val) null

-- `i.to_string()` of an `i64`
abbrev pub show : ℤ → String
show (pos n) = to_string n
show (negsuc n) = String.◌++◌ "-" (to_string (n + 1))

-- The event type of a numeric tag.
abbrev pub tag_name : ℤ → String
tag_name (pos n) =
    if n == 0
    then "osquery"
    else if n == 1
    then "process"
    else if n == 2
    then "file"
    else if n == 3
    then "network"
    else to_string n
tag_name (negsuc n) = show (negsuc n)

unfoldable pub event_type_name : Value → String
event_type_name v = elim (as_str v) [
  | some s ↦ s
  | none ↦ elim (as_i64 v) [ some i ↦ tag_name i | none ↦ "" ]
]

-- The outbound channel: what was put on it, and after how many more sends its receiver is gone.
pub record Outbound : Type 0 where
  pub sent : List AgentEvent
  pub closes_after : Option ℕ

abbrev pub send_with : Option ℕ → AgentEvent → Outbound → Option Outbound
send_with none e tx = some (record { sent = tx.sent ++ e ∷ []; closes_after = none })
send_with (some zero) e tx = none
send_with (some (suc k)) e tx = some (record { sent = tx.sent ++ e ∷ []; closes_after = some k })

-- `tx.send(event).await`
abbrev pub send : AgentEvent → Outbound → Option Outbound
send e tx = send_with tx.closes_after e tx

module _ (codec : Codec) where
  -- One round of the loop up to the send; an event whose payload cannot be printed is skipped.
  unfoldable pub proto_of : Value → Option AgentEvent
  proto_of val = elim (codec.to_vec (index "payload" val)) [
    | err e ↦ none
    | ok payload ↦ some (record {
      node_id = unwrap_or (as_str (index "node_id" val)) "";
      event_type = event_type_name (index "event_type" val);
      payload = payload;
      timestamp_ns = unwrap_or (as_i64 (index "timestamp_ns" val)) (pos 0);
      sequence_id = unwrap_or (as_str (index "sequence_id" val)) "";
    })
  ]

  unfoldable pub send_loop : List Value → Outbound → Outbound × Result String EventAck
  send_loop [] tx = (tx, ok (record { success = true; error = none }))
  send_loop (val ∷ vals) tx = elim (proto_of val) [
    | none ↦ send_loop vals tx
    | some e ↦ elim (send e tx) [
      | none ↦ (tx, err "Send channel closed")
      | some tx' ↦ send_loop vals tx'
    ]
  ]

  -- `FleetClient::send_events`; the channel is missing before `connect`.
  unfoldable pub send_events :
      List Value → Option Outbound → Option Outbound × Result String EventAck
  send_events vals none = (none, err "Stream not connected")
  send_events vals (some tx) = let (tx', r) = send_loop vals tx in (some tx', r)

  -- `filter_map(|e| serde_json::from_str(e).ok())`
  unfoldable pub parse_events : List String → List Value
  parse_events [] = []
  parse_events (e ∷ es) = elim (codec.from_slice (as_bytes e)) [
    | ok v ↦ v ∷ parse_events es
    | err _ ↦ parse_events es
  ]

-- A push with its time and the faults that it meets.
pub record Push : Type 0 where
  pub faults : PushFaults
  pub now : ℕ
  pub json : String

-- Pushes in turn; a failed one is ignored, as in `let _ = buffer.push(event).await`.
unfoldable pub push_all : List Push → EventBuffer → EventBuffer
push_all [] b = b
push_all (p ∷ ps) b = push_all ps (push p.faults p.now p.json b).0

-- How a re-queued event meets the buffer.
abbrev pub Conditions : Type 0
Conditions = ℕ → PushFaults × ℕ

abbrev pub requeued : Conditions → ℕ → List String → List Push
requeued c i [] = []
requeued c i (e ∷ es) = record { faults = (c i).0; now = (c i).1; json = e } ∷ requeued c (suc i) es

-- The `match` on the result of the send.
unfoldable pub settle :
    Conditions → List String → Result String EventAck → EventBuffer → EventBuffer
settle c events (ok ack) b = if ack.success then b else push_all (requeued c 0 events) b
settle c events (err e) b = push_all (requeued c 0 events) b

pub record Tick : Type 0 where
  pub buffer : EventBuffer
  pub outbound : Option Outbound

module _ (codec : Codec) where
  -- A batch of at least one parsed event is sent, while the other task pushes.
  unfoldable pub send_batch :
      Conditions → List Push → List String → List Value → EventBuffer → Option Outbound → Tick
  send_batch c between events [] b tx = record { buffer = b; outbound = tx }
  send_batch c between events (v ∷ vs) b tx =
      let (tx', r) = send_events codec (v ∷ vs) tx in
      record { buffer = settle c events r (push_all between b); outbound = tx' }

  abbrev pub after_drain :
      Conditions → List Push → EventBuffer × Result String (List String) → Option Outbound → Tick
  after_drain c between (b, err e) tx = record { buffer = b; outbound = tx }
  after_drain c between (b, ok events) tx =
      send_batch c between events (parse_events codec events) b tx

  -- One tick of the loop.
  unfoldable pub drain_tick : Conditions → List Push → Bool → ℕ → Tick → Tick
  drain_tick c between fails batch_size s =
      after_drain c between (drain fails batch_size s.buffer) s.outbound
