-- ===== src/Fleet/Tests.antt =====
-- The fleet server's theorems at concrete requests.
use Prim.Native.String
use native.Mathlib.Decide.{ℕ_discrete}
use aigis_zero.Agent.Drain.{AgentEvent}
use aigis_zero.Fleet.Access.{validate_token-sign_token, Decodes}
use aigis_zero.Fleet.Acks.{event_stream_lem, taken, ids, records}
use aigis_zero.Fleet.Columns.{
  Request, enrolling, beating, serve, serve_all, serve_all-Extends, Extends, fixed_columns,
}
use aigis_zero.Fleet.Database.{
  Db, Node, Outages, update_nodes, select_node_id, has_node, has_machine,
}
use aigis_zero.Fleet.Enrollment.{
  NodeRecord, Stamp, NodeClaims, register_agent, upsert_node, upsert_tx, upsert_row, write_audit,
  sign_token, claims_at,
}
use aigis_zero.Fleet.Gateway.{
  MetadataMap, validate_token, Enrolling, Config, admits, provided_secret, register, Beating,
  heartbeat,
}
use aigis_zero.Fleet.Health.{
  AgentHeartbeat, record_heartbeat, sanitize, store_heartbeat, heartbeat_tx,
}
use aigis_zero.Fleet.Ingest.{Broker, Outside, ingest_event, event_stream}
use aigis_zero.Json.{null}
use aigis_zero.Prelude.{
  ℕ, ltb, String, false, List, [], ◌∷◌, ◌++◌, map, none, some, Result, ok, err, ◌≡◌, refl, arith,
  pos, if◌then◌else◌, lookup, str_eq, strip_prefix, one_of, eq_iff, ◌&&◌, ◌==◌, ◌<◌, Bool-cases,
  inl, inr, &&-eq-true, ==_iff, sym, subst,
}

program : Unit {0}
unfolding update_nodes select_node_id has_node has_machine register_agent upsert_node upsert_tx
    upsert_row write_audit sign_token validate_token admits provided_secret register heartbeat
    record_heartbeat sanitize store_heartbeat heartbeat_tx ingest_event event_stream taken lookup
    serve serve_all strip_prefix one_of ℕ_discrete
program = tt

abbrev calm : Outages
calm = record { pool = false; first = false; second = false; third = false; commit = false }

abbrev empty : Db
empty = record { nodes = []; node_health = []; enrollment_events = [] }

abbrev stamp : Stamp
stamp = record { node_id = 7; event_id = 8; now = 100 }

abbrev host : NodeRecord
host = record { hostname = "h"; os_version = "o"; agent_version = "a"; machine_id = "m" }

abbrev enrol : Enrolling
enrol = record { out = calm; stamp = stamp; now = some 1000 }

abbrev config : Config
config = record { enrollment_secret = some "s"; jwt_secret = 1 ∷ [] }

abbrev with_secret : MetadataMap
with_secret = ("x-enrollment-secret", some "s") ∷ []

abbrev with_token : MetadataMap
with_token = ("authorization", some "Bearer t") ∷ []

-- A JWT library with one secret and one node, whose token is the node's id.
abbrev encode : NodeClaims → List ℕ → Result String String
encode c secret = ok "t"

abbrev decode : String → Result String NodeClaims
decode token = ok (record { node_id = "7"; exp = 2000 })

abbrev show : ℕ → String
show id = "7"

abbrev parse : String → Result String ℕ
parse s = ok 7

abbrev beat : AgentHeartbeat
beat = record { node_id = "7"; status = "isolated"; events_buffered = pos 3 }

abbrev beaten : Beating
beaten = record { out = calm; health_id = 9; now = 200 }

abbrev requests : List Request
requests = enrolling with_secret enrol host ∷ beating with_token beaten beat ∷ []

-- The machine is enrolled, and its heartbeat is stored as degraded.
served :
    map
      (λ (n : Node). n.agent_status)
      (serve_all encode decode show parse config requests empty).nodes
    ≡ "degraded" ∷ []
unfolding program
served = refl

serve_all-Extends_example :
    Extends
      (fixed_columns empty)
      (fixed_columns (serve_all encode decode show parse config requests empty))
serve_all-Extends_example = serve_all-Extends encode decode show parse config requests empty

abbrev enrolled : Db
enrolled = record empty {
  nodes =
      record {
        node_id = 7;
        machine_id = "m";
        hostname = "h";
        os_version = "o";
        agent_version = "a";
        agent_status = "healthy";
        operator_status = "isolated";
        first_seen_at = 1;
        last_enrolled_at = 1;
      }
      ∷ [];
}

abbrev known : NodeClaims
known = record { node_id = "7"; exp = 87400 }

-- A JWT library that signs one set of claims.
abbrev signs : NodeClaims → List ℕ → Result String String
signs c secret = if str_eq c.node_id "7" && c.exp == 87400 then ok "t" else err "unknown"

abbrev reads : List ℕ → ℕ → String → Result String NodeClaims
reads secret now token = if ltb now 87400 then ok known else err "expired"

signs-known :
    (c : NodeClaims) (secret : List ℕ) (token : String) → signs c secret ≡ ok token → c ≡ known
signs-known c secret token h = elim (Bool-cases (str_eq c.node_id "7" && c.exp == 87400)) [
  | inr e ↦ let h' = rw e at h in cc
  | inl e ↦
      let (same, exp) = &&-eq-true (str_eq c.node_id "7") (c.exp == 87400) e in
      let node_id = (eq_iff c.node_id "7").0 same in let exp' = (==_iff c.exp 87400).0 exp in cc
]

reads-known :
    (secret : List ℕ) (token : String) (now : ℕ) → now < 87400 → reads secret now token ≡ ok known
reads-known secret token now h = ground arith

reads-signs : Decodes signs reads
reads-signs c secret token now h soon =
    subst (λ (x : NodeClaims). now < x.exp → reads secret now token ≡ ok x)
      (sym (signs-known c secret token h)) (reads-known secret token now) soon

validate_token-sign_token_example :
    validate_token (reads (1 ∷ []) 2000) (("authorization", some (String.◌++◌ "Bearer " "t")) ∷ [])
    ≡ ok (claims_at "7" 1000)
unfolding program
validate_token-sign_token_example =
    validate_token-sign_token signs reads reads-signs "7" "t" (1 ∷ []) 1000 2000 refl (omega arith)
      (omega arith)

abbrev event : String → AgentEvent
event id = record {
  node_id = "7";
  event_type = "process";
  payload = [];
  timestamp_ns = pos 1;
  sequence_id = id;
}

-- A broker that refuses one key.
abbrev outside : Outside
outside = record {
  codec = record { from_slice = λ bytes. ok null; to_vec = λ v. ok (1 ∷ []) };
  from_utf8_lossy = λ bytes. "";
  new_v4 = λ n. "fresh";
  deliver = λ r. ok tt;
}

abbrev inbound : List (Result String AgentEvent)
inbound = ok (event "a") ∷ ok (event "b") ∷ err "reset" ∷ ok (event "c") ∷ []

abbrev broker : Broker
broker = record { published = []; drawn = 0 }

acked : ids outside "raw" (taken outside "raw" 0 inbound) ≡ "a" ∷ "b" ∷ []
unfolding program
acked = refl

event_stream_lem_example :
    let (b', c') =
      event_stream outside "raw" inbound broker (record { acks = []; closes_after = none }) in
    (b'.published ≡ [] ++ records outside "raw" (taken outside "raw" 0 inbound))
    × (c'.acks ≡ [] ++ ids outside "raw" (taken outside "raw" 0 inbound))
event_stream_lem_example = event_stream_lem outside "raw" inbound broker []
