-- ===== src/Fleet/Status.antt =====
-- The statuses that heartbeats store: of the table of nodes and of the history, whatever agents
-- report.
use aigis_zero.Engine.Models.{Uuid, DateTime}
use aigis_zero.Fleet.Database.{Node, NodeHealth, Db, Outages, update_nodes, has_node, transaction}
use aigis_zero.Fleet.Health.{
  AgentHeartbeat, HeartbeatRecord, set_agent_status, health_row, heartbeat_tx, sanitize,
  store_heartbeat, stamped, record_parsed, record_heartbeat,
}
use aigis_zero.Prelude.{
  String, Bool, true, false, not, ◌||◌, List, [], ◌∷◌, Result, ok, err, ◌≡◌, refl, All, All-append,
  if_elim, one_of, str_eq, ◌==◌,
}

-- What an agent may report: the operator's "isolated" is not among these.
abbrev pub IsReportable : String → Type 0
IsReportable status = one_of ("healthy" ∷ "degraded" ∷ []) status ≡ true

pub record HasReportable (db : Db) : Type 0 where
  pub nodes : All (λ (n : Node). IsReportable n.agent_status) db.nodes
  pub node_health : All (λ (h : NodeHealth). IsReportable h.agent_status) db.node_health

pub sanitize-IsReportable : (status : String) → IsReportable (sanitize status)
unfolding sanitize one_of
sanitize-IsReportable status =
    if_elim IsReportable (str_eq status "healthy") refl
      (if_elim IsReportable (str_eq status "degraded") refl refl)

All-update_nodes :
    (status : String)
    → IsReportable status
    → (id : Uuid) (ns : List Node) → All (λ (n : Node). IsReportable n.agent_status) ns
    → All (λ (n : Node). IsReportable n.agent_status) (update_nodes (set_agent_status status) id ns)
unfolding update_nodes
All-update_nodes status k id [] h = tt
All-update_nodes status k id (n ∷ ns) h =
    let rest = All-update_nodes status k id ns h.1 in
    if_elim (All (λ (n : Node). IsReportable n.agent_status)) (n.node_id == id) (k, rest)
      (h.0, rest)

abbrev LeavesReportable : Result String (Db × Unit {0}) → Type 0
LeavesReportable (err e) = Unit
LeavesReportable (ok (db, u)) = HasReportable db

transaction-HasReportable :
    (commit : Bool) (db : Db) (r : Result String (Db × Unit {0}))
    → HasReportable db
    → LeavesReportable r
    → HasReportable (transaction commit db r).0
transaction-HasReportable commit db (err e) h k = h
transaction-HasReportable true db (ok (db', u)) h k = h
transaction-HasReportable false db (ok (db', u)) h k = k

module _ (out : Outages) (id : Uuid) (r : HeartbeatRecord)
    (known : IsReportable r.agent_status) where
  heartbeat_tx-LeavesReportable :
      (node_id : Uuid) (db : Db)
      → HasReportable db
      → LeavesReportable (heartbeat_tx out id node_id r db)
  unfolding heartbeat_tx
  heartbeat_tx-LeavesReportable node_id db h =
      if_elim LeavesReportable (out.first || not (has_node node_id db.nodes)) tt (
        if_elim LeavesReportable out.second tt record {
          nodes = All-update_nodes r.agent_status known node_id db.nodes h.nodes;
          node_health =
              All-append (λ (h : NodeHealth). IsReportable h.agent_status) db.node_health
                (health_row id node_id r ∷ []) h.node_health (known, tt);
        })

  record_parsed-HasReportable :
      (parse : String → Result String Uuid) (parsed : Result String Uuid) (db : Db)
      → HasReportable db
      → HasReportable (record_parsed parse out id r parsed db).0
  record_parsed-HasReportable parse (err e) db h = h
  record_parsed-HasReportable parse (ok node_id) db h =
      if_elim (λ (p : Db × Result String (Unit {0})). HasReportable p.0) out.pool h
        (transaction-HasReportable out.commit db (heartbeat_tx out id node_id r db) h
          (heartbeat_tx-LeavesReportable node_id db h))

-- A heartbeat, whatever status it reports and whether it is stored or not, keeps every stored
-- status one of "healthy" and "degraded".
pub record_heartbeat-HasReportable :
    (parse : String → Result String Uuid) (out : Outages) (id : Uuid) (now : DateTime)
    (hb : AgentHeartbeat) (db : Db)
    → HasReportable db
    → HasReportable (record_heartbeat parse out id now hb db).0
unfolding record_heartbeat store_heartbeat
record_heartbeat-HasReportable parse out id now hb db h =
    record_parsed-HasReportable out id (stamped now hb) (sanitize-IsReportable hb.status) parse
      (parse hb.node_id) db h
