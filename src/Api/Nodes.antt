-- ===== src/Api/Nodes.antt =====
-- The isolation of a node by an operator: api-backend/src/services/node_service.rs over
-- `update_operator_status` of api-backend/src/repositories/node_repo.rs, on the fleet server's
-- table. The failures of the database are arguments. What the fleet client does with a command is
-- left out: the service only logs it.
use aigis_zero.Api.Errors.{AppError, database_error, from_pool, missing}
use aigis_zero.Engine.Models.{Uuid, DateTime}
use aigis_zero.Fleet.Database.{Node, Db, update_nodes}
use aigis_zero.Prelude.{
  String, Bool, true, false, List, [], ◌∷◌, Option, none, some, unwrap_or, or_else, Result, ok, err,
  if◌then◌else◌, ◌==◌,
}

pub record IsolateNodeResponse : Type 0 where
  pub node_id : Uuid
  pub operator_status : String
  pub command_dispatched : Bool
  pub updated_at : DateTime

-- What of one update fails.
pub record Outages : Type 0 where
  pub pool : Option String
  pub update : Option String

-- The first row of a node.
unfoldable pub find_node : Uuid → List Node → Option Node
find_node id [] = none
find_node id (n ∷ ns) = if n.node_id == id then some n else find_node id ns

abbrev pub set_operator_status : String → Node → Node
set_operator_status status n = record n { operator_status = status }

-- The update by the row that it returns.
abbrev pub updated :
    (Uuid → String)
    → DateTime
    → Uuid
    → String
    → Db
    → Option Node
    → Db × Result AppError IsolateNodeResponse
updated show now id status db none = (db, err (missing "Node" (show id)))
updated show now id status db (some n) = (
  record db { nodes = update_nodes (set_operator_status status) id db.nodes },
  ok (record {
    node_id = n.node_id;
    operator_status = status;
    command_dispatched = true;
    updated_at = now;
  }),
)

abbrev pub failing_pool : Option String → Option AppError
failing_pool none = none
failing_pool (some e) = some (from_pool e)

abbrev pub failing_statement : Option String → Option AppError
failing_statement none = none
failing_statement (some e) = some (database_error e)

-- The error of an update that fails before it finds its row.
abbrev pub failing : Outages → Option AppError
failing out = or_else (failing_pool out.pool) (failing_statement out.update)

abbrev pub guarded {ℓ} :
    {A : Type ℓ} → Option AppError → Db → Db × Result AppError A → Db × Result AppError A
guarded (some e) db done = (db, err e)
guarded none db done = done

unfoldable pub update_operator_status :
    (Uuid → String)
    → Outages
    → DateTime
    → Uuid
    → String
    → Db
    → Db × Result AppError IsolateNodeResponse
update_operator_status show out now id status db =
    guarded (failing out) db (updated show now id status db (find_node id db.nodes))

-- A command to the fleet server.
pub record IsolateCommand : Type 0 where
  pub node_id : Uuid
  pub isolate : Bool
  pub reason : String

-- The tables, the commands handed to the fleet client, and the answer.
pub record Served : Type 0 where
  pub db : Db
  pub commands : List IsolateCommand
  pub answer : Result AppError IsolateNodeResponse

abbrev pub dispatch : IsolateCommand → Db × Result AppError IsolateNodeResponse → Served
dispatch c (db, ok res) = record { db = db; commands = c ∷ []; answer = ok res }
dispatch c (db, err e) = record { db = db; commands = []; answer = err e }

abbrev pub isolation : Uuid → Option String → IsolateCommand
isolation id reason = record {
  node_id = id;
  isolate = true;
  reason = unwrap_or reason "Operator manual isolation";
}

abbrev pub lifting : Uuid → IsolateCommand
lifting id = record { node_id = id; isolate = false; reason = "Operator un-isolation" }

module _ (show : Uuid → String) where
  -- `NodeService::isolate_node` and `unisolate_node`
  unfoldable pub isolate_node : Outages → DateTime → Uuid → Option String → Db → Served
  isolate_node out now id reason db =
      dispatch (isolation id reason) (update_operator_status show out now id "isolated" db)

  unfoldable pub unisolate_node : Outages → DateTime → Uuid → Db → Served
  unisolate_node out now id db =
      dispatch (lifting id) (update_operator_status show out now id "active" db)
