-- ===== src/Api/Tests.antt =====
-- The API's theorems at concrete records and turns.
use native.Mathlib.Decide.{ℕ_discrete}
use aigis_zero.Agent.Drain.{AgentEvent}
use aigis_zero.Api.Agreement.{Agrees, parse_kafka_message-parse_log_entity, entity_of_json-envelope}
use aigis_zero.Api.Batch.{Turn, tick, item, closed, persist}
use aigis_zero.Api.Events.{
  Outside, LiveEvent, log, log_entity, entity_of_json, parse_log_entity, live_log,
  parse_kafka_message,
}
use aigis_zero.Api.Flushing.{received, IsBatch, persist_lem}
use aigis_zero.Api.Frames.{Silent, published, skipped, pinged, turn, passing, handle_socket-sent}
use aigis_zero.Api.Isolation.{working, orders, unisolate_node-isolate_node}
use aigis_zero.Api.Nodes.{find_node, isolate_node, unisolate_node}
use aigis_zero.Api.Socket as Socket
use aigis_zero.Fleet.Database.{Node, Db}
use aigis_zero.Fleet.Ingest.{envelope}
use aigis_zero.Json.{Value, null, get, get_field}
use aigis_zero.Prelude.{
  ℕ, String, true, false, List, [], ◌∷◌, ◌++◌, map, none, some, ok, ◌≡◌, refl, arith, pos,
  strip_prefix, unwrap_or, All, concat,
}

program : Unit {0}
unfolding entity_of_json parse_log_entity live_log parse_kafka_message persist get get_field
    strip_prefix passing Socket.handle_socket Socket.round Socket.send Socket.matches_filter
    find_node Socket.any_topic ℕ_discrete
program = tt

abbrev event : AgentEvent
event = record {
  node_id = "n";
  event_type = "process";
  payload = [];
  timestamp_ns = pos 5;
  sequence_id = "q";
}

abbrev sent : Value
sent = envelope event "q" null

abbrev outside : Outside
outside = record {
  codec = record { from_slice = λ bytes. ok sent; to_vec = λ v. ok [] };
  live_event = λ bytes. none;
  parse_str = λ s. some 3;
  as_f32 = λ v. none;
  now_stored = pos 9;
  now_live = pos 10;
  new_v4 = 4;
}

parse_kafka_message-parse_log_entity_example :
    (json : Value) × (e : LiveEvent) × (outside.codec.from_slice [] ≡ ok json)
    × (parse_kafka_message outside "aigis.events.raw" [] ≡ some e)
    × Agrees outside json e (log_entity outside sent 3)
unfolding program
parse_kafka_message-parse_log_entity_example =
    parse_kafka_message-parse_log_entity outside "aigis.events.raw" [] (log_entity outside sent 3)
      refl refl

entity_of_json-envelope_example :
    entity_of_json outside sent
    ≡ some (record {
      event_id = unwrap_or (outside.parse_str "q") outside.new_v4;
      node_id = 3;
      event_type = "process";
      hostname = "unknown";
      payload = null;
      raw_sequence_id = some "q";
      recorded_at = pos 5;
    })
entity_of_json-envelope_example =
    entity_of_json-envelope outside event "q" null 3 refl (omega arith)

abbrev turns : List (Turn ℕ)
turns = item 1 ∷ tick ∷ item 2 ∷ closed ∷ item 3 ∷ []

flushed : (persist turns [] []).1 ≡ (1 ∷ []) ∷ (2 ∷ []) ∷ []
unfolding program
flushed = refl

persist_lem_example :
    let (batch', inserted') = persist turns [] [] in
    (concat inserted' ++ batch' ≡ (concat [] ++ []) ++ received turns) × All IsBatch inserted'
persist_lem_example = persist_lem turns [] [] (omega arith) tt

abbrev accepting : Socket.Outside
accepting = record {
  event_text = λ e. some (Socket.node_of e);
  server_text = λ m. none;
  client_message = λ t. none;
  now_millis = pos 0;
  accepts = λ n. true;
}

abbrev session : Socket.Session
session = record { node_filter = some "n"; topic_filters = []; sent = []; given = 0 }

abbrev logged : String → LiveEvent
logged node_id = log (record {
  node_id = node_id;
  hostname = "h";
  event_type = "process";
  payload = null;
  timestamp_ns = pos 5;
})

abbrev broadcast : List Silent
broadcast = pinged ∷ published (logged "m") ∷ skipped 2 ∷ published (logged "n") ∷ []

filtered :
    (Socket.handle_socket accepting (map turn broadcast) session).sent
    ≡ Socket.ping_frame [] ∷ Socket.text "n" ∷ []
unfolding program
filtered = refl

handle_socket-sent_example :
    (Socket.handle_socket accepting (map turn broadcast) session).sent
    ≡ [] ++ passing accepting (λ n. refl) (some "n") [] broadcast
handle_socket-sent_example = handle_socket-sent accepting (λ n. refl) broadcast session

abbrev known : Node
known = record {
  node_id = 7;
  machine_id = "m";
  hostname = "h";
  os_version = "o";
  agent_version = "a";
  agent_status = "healthy";
  operator_status = "active";
  first_seen_at = 1;
  last_enrolled_at = 2;
}

abbrev tables : Db
tables = record { nodes = known ∷ []; node_health = []; enrollment_events = [] }

unisolate_node-isolate_node_example :
    let s = isolate_node (λ id. "7") working 3 7 none tables in
    let s' = unisolate_node (λ id. "7") working 4 7 s.db in
    (s'.db ≡ tables) × (orders s ≡ true ∷ []) × (orders s' ≡ false ∷ [])
unfolding program
unisolate_node-isolate_node_example =
    unisolate_node-isolate_node (λ id. "7") 3 4 7 none tables known refl ((λ e. refl), tt)
