-- ===== src/Pipeline/Tests.antt =====
-- The pipeline's theorems at concrete messages, and runs of the router.
use aigis_zero.Engine.Category.{category}
use aigis_zero.Engine.Models.{TelemetryEvent}
use aigis_zero.Json.{Value, string, object, end, field, Codec, get, get_field, insert}
use aigis_zero.Pipeline.Counting.{handled, position, record_of, run-records, run-counters}
use aigis_zero.Pipeline.Delivery.{
  IsDeadLetter, IsTyped, emitted-IsDeadLetter-or-IsTyped, emitted_again,
}
use aigis_zero.Pipeline.Metrics.{new, routed_total, inc_routed}
use aigis_zero.Pipeline.Normal.{category-route_topic, normalize-route_topic}
use aigis_zero.Pipeline.Records.{emitted}
use aigis_zero.Pipeline.Router.{
  FutureRecord, Message, route_topic, event_type_of, normalized_category, normalize, outbound,
  process, reject, route,
}
use aigis_zero.Pipeline.Worker.{
  BorrowedMessage, Poll, message, stream_error, ended, ConsumerWorker, handle_message, run,
}
use aigis_zero.Prelude.{
  ◌+◌, ◌%◌, ◌^◌, String, List, [], ◌∷◌, ◌++◌, map, none, some, Result, ok, err, ◌≡◌, refl, ◌≢◌, ◌⊎◌,
  arith, length, unwrap_or, pos, list_eq, if◌then◌else◌, one_of,
}

program : Unit {0}
unfolding run handle_message process reject route outbound route_topic event_type_of
    normalized_category get get_field insert inc_routed one_of handled category
program = tt

abbrev users_query : Value
users_query = object (
    field "event_type" (string "osquery")
      (field "payload" (object (field "query_name" (string "users") end)) end))

abbrev users_event : Value
users_event = object (
    field "event_type" (string "auth")
      (field "payload" (object (field "query_name" (string "users") end)) end))

-- A codec that knows two events.
abbrev two_events : Codec
two_events = record {
  from_slice = λ bytes.
      if list_eq bytes (1 ∷ [])
      then ok users_query
      else if list_eq bytes (2 ∷ [])
      then ok users_event
      else err "expected value";
  to_vec = λ v. ok (2 ∷ []);
}

abbrev delivered : FutureRecord → Result String (Unit {0})
delivered r = ok tt

abbrev raw : Message
raw = record {
  key = none;
  payload = 1 ∷ [];
  topic = "aigis.events.raw";
  partition = pos 0;
  offset = pos 7;
}

abbrev raw_borrowed : BorrowedMessage
raw_borrowed = record {
  key = none;
  payload = some (1 ∷ []);
  topic = "aigis.events.raw";
  partition = pos 0;
  offset = pos 7;
}

abbrev broken : BorrowedMessage
broken = record {
  key = none;
  payload = none;
  topic = "aigis.events.raw";
  partition = pos 0;
  offset = pos 8;
}

abbrev polls : List Poll
polls = message raw_borrowed ∷ stream_error "timeout" ∷ message broken ∷ ended ∷ []

abbrev idle : ConsumerWorker
idle = record { processor = record { metrics = new; sent = [] }; committed = [] }

-- A query result on users goes to the auth topic, an empty payload to the dead letters.
routed_topics :
    map (λ (r : FutureRecord). r.topic) (run two_events delivered polls idle).processor.sent
    ≡ "aigis.events.auth" ∷ "aigis.events.dlq" ∷ []
unfolding program
routed_topics = refl

run-records_example :
    ((run two_events delivered polls idle).processor.sent
      ≡ [] ++ map (record_of two_events) (handled polls))
    × ((run two_events delivered polls idle).committed ≡ [] ++ map position (handled polls))
run-records_example = run-records two_events delivered polls idle

run-counters_example :
    ((run two_events delivered polls idle).processor.metrics.events_consumed
      ≡ (0 + length (handled polls)) % 2 ^ 64)
    × (routed_total (run two_events delivered polls idle).processor.metrics
        ≡ (routed_total new + length (handled polls)) % 2 ^ 64)
run-counters_example = run-counters two_events delivered polls idle (omega arith)

abbrev login : TelemetryEvent
login = record {
  id = "e1";
  node_id = 1;
  hostname = "";
  event_type = "user_login";
  timestamp_ns = pos 0;
  payload = users_event;
  raw_sequence_id = none;
}

category-route_topic_example :
    (category login ≡ normalized_category "aigis.events.auth" "user_login")
    × (category (record login { event_type = normalized_category "aigis.events.auth" "user_login" })
        ≡ normalized_category "aigis.events.auth" "user_login")
unfolding program
category-route_topic_example = category-route_topic login "aigis.events.auth" refl

normalize-route_topic_example :
    let c = normalized_category "aigis.events.auth" (event_type_of users_query) in
    (get "event_type" (normalize c users_query) ≡ some (string c))
    × ((k : String) → k ≢ "event_type" → get k (normalize c users_query) ≡ get k users_query)
    × (route_topic (event_type_of (normalize c users_query)) ≡ some "aigis.events.auth")
    × (normalize
          (normalized_category "aigis.events.auth" (event_type_of (normalize c users_query)))
          (normalize c users_query)
        ≡ normalize c users_query)
unfolding program
normalize-route_topic_example = normalize-route_topic users_query "aigis.events.auth" refl

emitted_example :
    ((emitted two_events raw).key ≡ unwrap_or raw.key [])
    × (IsDeadLetter raw (emitted two_events raw) ⊎ IsTyped two_events raw (emitted two_events raw))
emitted_example = emitted-IsDeadLetter-or-IsTyped two_events raw

emitted_again_example :
    emitted two_events (record raw { payload = 2 ∷ [] }) ≡ emitted two_events raw
unfolding program
emitted_again_example =
    emitted_again two_events raw users_query "aigis.events.auth" (2 ∷ []) refl refl refl refl
