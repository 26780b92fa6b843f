-- ===== src/Agent/Collect/Tests.antt =====
-- The collection's theorems at a snapshot of running processes.
use aigis_zero.Agent.Buffer.{EventBuffer, push, evict, delete_ids, is_in}
use aigis_zero.Agent.Buffer.Queue.{contents, keep_last, no_faults}
use aigis_zero.Agent.Collect.{
  OsqueryResult, AgentEvent, Arrival, build_result, result_value, event_value, event_of,
  encode_osquery_result, collect, drain_channel, buffer_one, gather,
}
use aigis_zero.Agent.Collect.Journey.{message_of, result-route_topic}
use aigis_zero.Agent.Collect.Shutdown.{jsons, shut_down, collect-contents}
use aigis_zero.Agent.Drain.{parse_events}
use aigis_zero.Agent.Drain.Sending.{protos}
use aigis_zero.Agent.Osquery.{snapshot, as_str}
use aigis_zero.Fleet.Ingest.{Outside, TopicRecord, envelope, record_for}
use aigis_zero.Json.{Value, Bytes, get, get_field}
use aigis_zero.Pipeline.Router.{
  FutureRecord, Message, EventRouterProcessor, dlq, route_topic, process,
}
use aigis_zero.Pipeline.Metrics
use aigis_zero.Prelude.{
  ◌≤◌, length, String, [], ◌∷◌, ◌++◌, Option, none, some, Result, ok, err, pos, ◌≡◌, refl, arith,
  as_bytes, unwrap_or, one_of, is_some, ◌==◌, if◌then◌else◌,
}

program : Unit {0}
unfolding build_result result_value event_value encode_osquery_result collect drain_channel
    buffer_one gather jsons as_bytes get get_field as_str push evict delete_ids is_in route_topic
    one_of
program = tt

abbrev seen : OsqueryResult
seen = build_result "running_processes" "7" ((("pid", "1") ∷ []) ∷ []) snapshot (some (pos 5))

abbrev to_value : OsqueryResult → Option Value
to_value r = some (result_value r)

abbrev to_string : AgentEvent → Option String
to_string e = some "e"

-- A printer of two values, and the parser of these and of the event's text.
abbrev print : Value → Result String Bytes
print v = ok (if is_some (get "action" v) then 1 ∷ [] else 2 ∷ [])

abbrev sent : Value
sent = envelope (message_of "s" seen (1 ∷ [])) "s" (result_value seen)

abbrev parse : Bytes → Result String Value
parse [] = err "empty"
parse (b ∷ bytes) =
    if b == 1
    then ok (result_value seen)
    else if b == 2
    then ok sent
    else ok (event_value (event_of "s" seen (result_value seen)))

abbrev outside : Outside
outside = record {
  codec = record { from_slice = parse; to_vec = print };
  from_utf8_lossy = λ bytes. "";
  new_v4 = λ n. "fresh";
  deliver = λ (r : TopicRecord). ok tt;
}

abbrev delivered : FutureRecord → Result String (Unit {0})
delivered r = ok tt

abbrev raw : Message
raw = record {
  key = none;
  payload = [];
  topic = "aigis.events.raw";
  partition = pos 0;
  offset = pos 0;
}

abbrev router : EventRouterProcessor
router = record { metrics = Metrics.new; sent = [] }

-- The snapshot of running processes goes to the topic of processes.
routed : unwrap_or (route_topic "running_processes") dlq ≡ "aigis.events.process"
unfolding program
routed = refl

result-route_topic_example :
    (encode_osquery_result to_value to_string "s" seen ≡ some "e")
    × (protos outside.codec (parse_events outside.codec ("e" ∷ []))
        ≡ message_of "s" seen (1 ∷ []) ∷ [])
    × ((out : FutureRecord) × ((process outside.codec delivered
            (record raw {
              payload = (record_for outside "raw" (message_of "s" seen (1 ∷ [])) 0).payload;
            })
            router).0.sent
          ≡ [] ++ out ∷ [])
        × (out.topic ≡ unwrap_or (route_topic seen.query_name) dlq))
unfolding program
result-route_topic_example =
    result-route_topic outside to_value to_string delivered seen "s" "e" (1 ∷ []) (2 ∷ []) "raw" 0
      raw router (omega arith) refl refl refl (refl, refl) (refl, refl)

abbrev arrival : String → Arrival
arrival id = record { result = seen; sequence_id = id; faults = no_faults; now = 20 }

-- The text of an event is its id.
abbrev by_id : AgentEvent → Option String
by_id e = some e.sequence_id

abbrev waiting : EventBuffer
waiting = record {
  rows = record { id = 1; payload = "x"; created_at = 10 } ∷ [];
  last_id = 1;
  max_events = 2;
}

-- Of three texts the cap keeps the last two.
kept :
    contents (collect to_value by_id (shut_down (arrival "a" ∷ []) (arrival "b" ∷ []) []) waiting)
    ≡ "a" ∷ "b" ∷ []
unfolding program
kept = refl

collect-contents_example :
    let all =
      (contents waiting ++ jsons to_value by_id (arrival "a" ∷ []))
      ++ jsons to_value by_id (arrival "b" ∷ []) in
    let left =
      contents
        (collect to_value by_id (shut_down (arrival "a" ∷ []) (arrival "b" ∷ []) []) waiting) in
    (left ≡ keep_last 2 all) × (length all ≤ 2 → left ≡ all)
collect-contents_example =
    collect-contents to_value by_id (arrival "a" ∷ []) (arrival "b" ∷ []) [] waiting (omega arith)
      (omega arith) (omega arith) (refl, tt) (refl, tt)
