-- ===== src/Engine/Consumer.antt =====
-- rule-engine/src/kafka/consumer.rs, with `send_poison_pill` of kafka/dlq.rs. serde's parser of an
-- event and the broker's answer to a dead letter are parameters. A commit that fails is only
-- logged, so the commits asked for are kept.
use aigis_zero.Engine.Models.{TelemetryEvent}
use aigis_zero.Json.{Bytes}
use aigis_zero.Prelude.{
  ℕ, zero, suc, String, Bool, true, false, List, [], ◌∷◌, ◌++◌, Option, none, some, unwrap_or,
  Result, ok, err, ℤ, if◌then◌else◌,
}

pub record Message : Type 0 where
  pub topic : String
  pub partition : ℤ
  pub offset : ℤ
  pub payload : Option Bytes

-- What a round of the `select!` takes.
pub data Poll : Type 0 where
  cancelled : Poll
  message : Message → Poll
  stream_error : Poll
  ended : Poll

pub record DeadLetter : Type 0 where
  pub topic : String
  pub key : String
  pub payload : Bytes
  pub original_topic : String
  pub original_partition : ℤ
  pub original_offset : ℤ
  pub error_message : String

-- The events that the scanner's channel took, after how many more its receiver is gone, the dead
-- letters handed to the producer, and the messages committed.
pub record TelemetryConsumer : Type 0 where
  pub channel : List TelemetryEvent
  pub closes_after : Option ℕ
  pub dead : List DeadLetter
  pub committed : List Message

abbrev pub offer : Option ℕ → TelemetryEvent → TelemetryConsumer → Option TelemetryConsumer
offer none e s = some (record s { channel = s.channel ++ e ∷ [] })
offer (some zero) e s = none
offer (some (suc k)) e s = some (record s { channel = s.channel ++ e ∷ []; closes_after = some k })

module _ (parse : Bytes → Result String TelemetryEvent) (dlq_topic : String) where
  -- `send_poison_pill`; the record is handed over whether or not it is delivered.
  abbrev pub poison_pill : Message → Bytes → String → DeadLetter
  poison_pill msg payload error_message = record {
    topic = dlq_topic;
    key = msg.topic;
    payload = payload;
    original_topic = msg.topic;
    original_partition = msg.partition;
    original_offset = msg.offset;
    error_message = error_message;
  }

  abbrev pub commit : Message → TelemetryConsumer → TelemetryConsumer
  commit msg s = record s { committed = s.committed ++ msg ∷ [] }

  -- The outcome of handing an event on; `false` ends the loop.
  abbrev pub handed_on :
      Message → Option TelemetryConsumer → TelemetryConsumer → TelemetryConsumer × Bool
  handed_on msg none s = (s, false)
  handed_on msg (some s') s = (commit msg s', true)

  abbrev pub parsed :
      Message → Bytes → Result String TelemetryEvent → TelemetryConsumer → TelemetryConsumer × Bool
  parsed msg payload (ok e) s = handed_on msg (offer s.closes_after e s) s
  parsed msg payload (err m) s =
      (commit msg (record s { dead = s.dead ++ poison_pill msg payload m ∷ [] }), true)

  -- The branch for a message, by its payload: an empty one is passed over, and not committed.
  abbrev pub handle_payload : Message → Bytes → TelemetryConsumer → TelemetryConsumer × Bool
  handle_payload msg [] s = (s, true)
  handle_payload msg (b ∷ payload) s = parsed msg (b ∷ payload) (parse (b ∷ payload)) s

  abbrev pub handle_message : Message → TelemetryConsumer → TelemetryConsumer × Bool
  handle_message msg s = handle_payload msg (unwrap_or msg.payload []) s

  unfoldable pub run : List Poll → TelemetryConsumer → TelemetryConsumer
  run [] s = s
  run (cancelled ∷ polls) s = s
  run (message msg ∷ polls) s =
      let r = handle_message msg s in let rest = run polls r.0 in if r.1 then rest else r.0
  run (stream_error ∷ polls) s = run polls s
  run (ended ∷ polls) s = s
