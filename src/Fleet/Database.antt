-- ===== src/Fleet/Database.antt =====
-- The tables of fleet-server/migrations, with the statements and transactions that
-- fleet-server/crates/postgres-interface runs on them. A UUID is its number, a time a number of
-- nanoseconds. A transaction sees the tables of its start: a conflict with a concurrent one is a
-- statement that fails.
use aigis_zero.Engine.Models.{Uuid, DateTime}
use aigis_zero.Prelude.{
  String, Bool, false, ◌||◌, List, [], ◌∷◌, Option, none, some, Result, ok, err, ℤ, if◌then◌else◌,
  ◌==◌, str_eq,
}

pub record Node : Type 0 where
  pub node_id : Uuid
  pub machine_id : String
  pub hostname : String
  pub os_version : String
  pub agent_version : String
  pub agent_status : String
  pub operator_status : String
  pub first_seen_at : DateTime
  pub last_enrolled_at : DateTime

pub record NodeHealth : Type 0 where
  pub health_id : Uuid
  pub node_id : Uuid
  pub agent_status : String
  pub events_buffered : ℤ
  pub recorded_at : DateTime

pub record EnrollmentEvent : Type 0 where
  pub event_id : Uuid
  pub node_id : Uuid
  pub event_type : String
  pub hostname : String
  pub os_version : String
  pub agent_version : String
  pub enrolled_at : DateTime

pub record Db : Type 0 where
  pub nodes : List Node
  pub node_health : List NodeHealth
  pub enrollment_events : List EnrollmentEvent

-- `UPDATE nodes SET … WHERE node_id = id`
unfoldable pub update_nodes : (Node → Node) → Uuid → List Node → List Node
update_nodes set id [] = []
update_nodes set id (n ∷ ns) =
    let rest = update_nodes set id ns in if n.node_id == id then set n ∷ rest else n ∷ rest

-- `SELECT node_id FROM nodes WHERE machine_id = m LIMIT 1`
unfoldable pub select_node_id : String → List Node → Option Uuid
select_node_id m [] = none
select_node_id m (n ∷ ns) = if str_eq n.machine_id m then some n.node_id else select_node_id m ns

-- Whether the primary key, or the unique `machine_id`, is taken.
unfoldable pub has_node : Uuid → List Node → Bool
has_node id [] = false
has_node id (n ∷ ns) = n.node_id == id || has_node id ns

unfoldable pub has_machine : String → List Node → Bool
has_machine m [] = false
has_machine m (n ∷ ns) = str_eq n.machine_id m || has_machine m ns

-- What of one transaction fails besides the constraints.
pub record Outages : Type 0 where
  pub pool : Bool
  pub first : Bool
  pub second : Bool
  pub third : Bool
  pub commit : Bool

-- `conn.transaction(…)`: an error, also one of the commit, rolls back.
abbrev pub transaction {ℓ} :
    {A : Type ℓ} → Bool → Db → Result String (Db × A) → Db × Result String A
transaction commit_fails db (err e) = (db, err e)
transaction commit_fails db (ok (db', a)) = if commit_fails then (db, err "commit") else (db', ok a)
