-- ===== src/Api/Receive.antt =====
-- The receive loop of start_kafka_consumer in api-backend/src/kafka/consumer.rs, with its channel of
-- 10,000 entries to the micro-batch worker of Api.Batch. A broadcast without subscribers is dropped
-- by the channel, which changes nothing here.
pub mod Steps
pub mod Kept
mod Tests
use aigis_zero.Api.Batch.{persist, item, tick, cancelled, closed}
use aigis_zero.Api.Events.{
  Outside, NewEventLogEntity, LiveEvent, parse_log_entity, parse_kafka_message,
}
use aigis_zero.Json.{Bytes}
use aigis_zero.Prelude.{
  ℕ, String, List, [], ◌∷◌, ◌++◌, Option, none, some, length, ltb, if◌then◌else◌, Bool, true, false,
  not, ◌&&◌,
}

abbrev pub capacity : ℕ
capacity = 10000

-- What happens next: a message, with what its parsing meets and its payload if it has one, or an
-- error arrives; the loop stops at the shutdown, which closes the channel; or the worker takes from
-- the channel, its interval is over, or it stops at the shutdown. The loop and the worker see the
-- shutdown each in its own time. A worker waits at a channel that is empty and not closed.
pub data Turn : Type 0 where
  message : Outside → String → Option Bytes → Turn
  receive_error : Turn
  loop_stops : Turn
  worker_takes : Turn
  worker_ticks : Turn
  worker_stops : Turn

-- The broadcast events, the entries in the channel, the worker's batch, the batches that it handed
-- to the repository, the entries that the channel refused, and which of the two tasks are over. What
-- is in the channel when the worker is over, no task takes any more.
pub record Receiving : Type 0 where
  pub broadcast : List LiveEvent
  pub queue : List NewEventLogEntity
  pub batch : List NewEventLogEntity
  pub inserted : List (List NewEventLogEntity)
  pub dropped : List NewEventLogEntity
  pub loop_over : Bool
  pub worker_over : Bool

-- `broadcast_tx.send`, if there is an event.
abbrev pub send : Option LiveEvent → Receiving → Receiving
send none s = s
send (some event) s = record s { broadcast = s.broadcast ++ event ∷ [] }

-- `persist_tx.try_send`, if there is an entry: a full or a closed channel refuses it.
abbrev pub try_send : Option NewEventLogEntity → Receiving → Receiving
try_send none s = s
try_send (some e) s =
    if not s.worker_over && ltb (length s.queue) capacity
    then record s { queue = s.queue ++ e ∷ [] }
    else record s { dropped = s.dropped ++ e ∷ [] }

abbrev pub worked : List NewEventLogEntity × List (List NewEventLogEntity) → Receiving → Receiving
worked (batch, inserted) s = record s { batch = batch; inserted = inserted }

-- The worker takes the first entry; from a channel that is empty and closed, its end.
abbrev pub take_entry : List NewEventLogEntity → Receiving → Receiving
take_entry [] s =
    if s.loop_over
    then record (worked (persist (closed ∷ []) s.batch s.inserted) s) { worker_over = true }
    else s
take_entry (e ∷ queue) s =
    worked (persist (item e ∷ []) s.batch s.inserted) (record s { queue = queue })

-- The worker's round, unless it is over.
abbrev pub take_turn : Receiving → Receiving
take_turn s = if s.worker_over then s else take_entry s.queue s

abbrev pub tick_over : Receiving → Receiving
tick_over s = if s.worker_over then s else worked (persist (tick ∷ []) s.batch s.inserted) s

abbrev pub stop_worker : Receiving → Receiving
stop_worker s =
    if s.worker_over
    then s
    else record (worked (persist (cancelled ∷ []) s.batch s.inserted) s) { worker_over = true }

-- The event and the entry of a message.
unfoldable pub event_of_message : Outside → String → Option Bytes → Option LiveEvent
event_of_message out topic none = none
event_of_message out topic (some payload) = parse_kafka_message out topic payload

unfoldable pub entry_of_message : Outside → String → Option Bytes → Option NewEventLogEntity
entry_of_message out topic none = none
entry_of_message out topic (some payload) = parse_log_entity out topic payload

-- A message, while the loop runs.
abbrev pub handle_received : Option LiveEvent → Option NewEventLogEntity → Receiving → Receiving
handle_received event entry s = if s.loop_over then s else try_send entry (send event s)

unfoldable pub receive : Turn → Receiving → Receiving
receive (message out topic payload) s =
    handle_received (event_of_message out topic payload) (entry_of_message out topic payload) s
receive receive_error s = s
receive loop_stops s = record s { loop_over = true }
receive worker_takes s = take_turn s
receive worker_ticks s = tick_over s
receive worker_stops s = stop_worker s

unfoldable pub receive_all : List Turn → Receiving → Receiving
receive_all [] s = s
receive_all (t ∷ turns) s = receive_all turns (receive t s)
