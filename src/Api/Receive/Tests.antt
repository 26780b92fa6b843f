-- ===== src/Api/Receive/Tests.antt =====
-- Messages, an error, and the ends of the worker and of the loop.
use aigis_zero.Api.Events.{
  Outside, NewEventLogEntity, log_entity, entity_of_json, parse_log_entity, live_log,
  parse_kafka_message,
}
use aigis_zero.Api.Batch.{persist}
use aigis_zero.Api.Receive.{
  Turn, message, receive_error, worker_takes, worker_ticks, loop_stops, worker_stops, receive,
  receive_all, event_of_message, entry_of_message,
}
use aigis_zero.Api.Receive.Steps.{IsReceived, started}
use aigis_zero.Api.Receive.Kept.{taken, live_events, log_entries, receive_all-IsReceived}
use aigis_zero.Fleet.Ingest.{envelope}
use aigis_zero.Json.{Value, null, get, get_field}
use aigis_zero.Prelude.{List, [], ◌∷◌, none, some, false, ok, ◌≡◌, refl, pos, strip_prefix}
use native.Mathlib.Decide.{ℕ_discrete}

abbrev sent : Value
sent =
    envelope
      (record {
        node_id = "n";
        event_type = "process";
        payload = [];
        timestamp_ns = pos 5;
        sequence_id = "q";
      })
      "q" null

abbrev outside : Outside
outside = record {
  codec = record { from_slice = λ bytes. ok sent; to_vec = λ v. ok [] };
  live_event = λ bytes. none;
  parse_str = λ s. some 3;
  as_f32 = λ v. none;
  now_stored = pos 9;
  now_live = pos 9;
  new_v4 = 4;
}

abbrev turns : List Turn
turns =
    message outside "aigis.events.raw" (some [])
    ∷ receive_error
    ∷ message outside "aigis.events.raw" none
    ∷ worker_takes
    ∷ message outside "aigis.events.raw" (some [])
    ∷ worker_stops
    ∷ message outside "aigis.events.raw" (some [])
    ∷ loop_stops
    ∷ worker_ticks
    ∷ []

abbrev entry : NewEventLogEntity
entry = log_entity outside sent 3

program : Unit {0}
unfolding receive_all receive event_of_message entry_of_message persist entity_of_json
    parse_log_entity live_log parse_kafka_message get get_field strip_prefix ℕ_discrete
program = tt

-- The first entry is handed over when the worker stops, the second is left in the channel, and the
-- third meets a closed channel.
handed_over : (receive_all turns started).inserted ≡ (entry ∷ []) ∷ []
unfolding program
handed_over = refl

left_behind : (receive_all turns started).queue ≡ entry ∷ []
unfolding program
left_behind = refl

refused : (receive_all turns started).dropped ≡ entry ∷ []
unfolding program
refused = refl

receive_all-IsReceived_example :
    IsReceived
      (live_events (taken false turns))
      (log_entries (taken false turns))
      (receive_all turns started)
receive_all-IsReceived_example = receive_all-IsReceived turns
