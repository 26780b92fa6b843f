-- ===== src/Pipeline/Worker.antt =====
-- kafka-pipeline/src/consumer.rs: the worker's loop over the consumer's stream. What arrives is a
-- list of polls; the loop stops at shutdown or at the end of the stream.
use aigis_zero.Json.{Bytes, Codec}
use aigis_zero.Pipeline.Router.{FutureRecord, Message, EventRouterProcessor, process}
use aigis_zero.Prelude.{String, List, [], ◌∷◌, ◌++◌, Result, ℤ, Option, unwrap_or}

-- A message as the consumer hands it out.
pub record BorrowedMessage : Type 0 where
  pub key : Option Bytes
  pub payload : Option Bytes
  pub topic : String
  pub partition : ℤ
  pub offset : ℤ

-- The arguments of `process`: a message without a payload has an empty one.
abbrev pub borrowed : BorrowedMessage → Message
borrowed m = record {
  key = m.key;
  payload = unwrap_or m.payload [];
  topic = m.topic;
  partition = m.partition;
  offset = m.offset;
}

-- One round of `select!`.
pub data Poll : Type 0 where
  cancelled : Poll
  message : BorrowedMessage → Poll
  stream_error : String → Poll
  ended : Poll

-- The processor, and the messages whose offset was committed, in order.
pub record ConsumerWorker : Type 0 where
  pub processor : EventRouterProcessor
  pub committed : List (String × ℤ × ℤ)

module _ (codec : Codec) (deliver : FutureRecord → Result String (Unit {0})) where
  -- A processing error is logged; the offset is committed whether there was one or not.
  unfoldable pub handle_message : BorrowedMessage → ConsumerWorker → ConsumerWorker
  handle_message msg w = record w {
    processor = (process codec deliver (borrowed msg) w.processor).0;
    committed = w.committed ++ (msg.topic, msg.partition, msg.offset) ∷ [];
  }

  unfoldable pub run : List Poll → ConsumerWorker → ConsumerWorker
  run [] w = w
  run (cancelled ∷ polls) w = w
  run (message msg ∷ polls) w = run polls (handle_message msg w)
  run (stream_error e ∷ polls) w = run polls w
  run (ended ∷ polls) w = w
