-- ===== src/Fleet/Health.antt =====
-- Heartbeats: fleet-server/crates/health-tracker/src/tracker.rs, with `record_heartbeat` of
-- fleet-server/crates/postgres-interface/src/health_store.rs. Reading a UUID is a parameter.
use aigis_zero.Engine.Models.{Uuid, DateTime}
use aigis_zero.Fleet.Database.{Node, NodeHealth, Db, Outages, update_nodes, has_node, transaction}
use aigis_zero.Fleet.Enrollment.{Status, internal}
use aigis_zero.Prelude.{
  String, not, ◌||◌, [], ◌∷◌, ◌++◌, Result, ok, err, map_err, ℤ, if◌then◌else◌, str_eq,
}

pub record HeartbeatRecord : Type 0 where
  pub node_id : String
  pub agent_status : String
  pub events_buffered : ℤ
  pub recorded_at : DateTime

pub record AgentHeartbeat : Type 0 where
  pub node_id : String
  pub status : String
  pub events_buffered : ℤ

abbrev pub health_row : Uuid → Uuid → HeartbeatRecord → NodeHealth
health_row health_id node_id r = record {
  health_id = health_id;
  node_id = node_id;
  agent_status = r.agent_status;
  events_buffered = r.events_buffered;
  recorded_at = r.recorded_at;
}

abbrev pub set_agent_status : String → Node → Node
set_agent_status status n = record n { agent_status = status }

-- The two writes; the first needs the node, by its foreign key.
unfoldable pub heartbeat_tx :
    Outages → Uuid → Uuid → HeartbeatRecord → Db → Result String (Db × Unit {0})
heartbeat_tx out health_id node_id r db =
    if out.first || not (has_node node_id db.nodes)
    then err "insert node_health"
    else if out.second
    then err "update nodes"
    else ok (
      record db {
        nodes = update_nodes (set_agent_status r.agent_status) node_id db.nodes;
        node_health = db.node_health ++ health_row health_id node_id r ∷ [];
      },
      tt,
    )

-- The status that is stored for a reported one.
unfoldable pub sanitize : String → String
sanitize status =
    if str_eq status "healthy"
    then "healthy"
    else if str_eq status "degraded"
    then "degraded"
    else "degraded"

-- The record that `HealthTracker` hands to the store.
abbrev pub stamped : DateTime → AgentHeartbeat → HeartbeatRecord
stamped now hb = record {
  node_id = hb.node_id;
  agent_status = sanitize hb.status;
  events_buffered = hb.events_buffered;
  recorded_at = now;
}

module _ (parse : String → Result String Uuid) where
  abbrev pub record_parsed :
      Outages → Uuid → HeartbeatRecord → Result String Uuid → Db → Db × Result String (Unit {0})
  record_parsed out health_id r (err e) db = (db, err e)
  record_parsed out health_id r (ok node_id) db =
      if out.pool
      then (db, err "pool")
      else transaction out.commit db (heartbeat_tx out health_id node_id r db)

  -- `PgHealthStore::record_heartbeat`
  unfoldable pub store_heartbeat :
      Outages → Uuid → HeartbeatRecord → Db → Db × Result String (Unit {0})
  store_heartbeat out health_id r db = record_parsed out health_id r (parse r.node_id) db

  -- `HealthTracker::record_heartbeat`
  unfoldable pub record_heartbeat :
      Outages → Uuid → DateTime → AgentHeartbeat → Db → Db × Result Status (Unit {0})
  record_heartbeat out health_id now hb db =
      let (db', stored) = store_heartbeat out health_id (stamped now hb) db in
      (db', map_err (λ (e : String). internal "heartbeat store failed") stored)
