-- ===== src/Fleet/Enrollment.antt =====
-- Enrolment: fleet-server/crates/node-enrollment/src/enroller.rs and token.rs, with `upsert_node`
-- of fleet-server/crates/postgres-interface/src/node_store.rs. The JWT library's `encode` and the
-- text of a UUID are parameters.
use aigis_zero.Engine.Models.{Uuid, DateTime}
use aigis_zero.Fleet.Database.{
  Node, EnrollmentEvent, Db, Outages, update_nodes, select_node_id, has_node, has_machine,
  transaction,
}
use aigis_zero.Prelude.{
  ℕ, ◌+◌, ◌-◌, ◌^◌, String, ◌||◌, List, [], ◌∷◌, ◌++◌, Option, none, some, Result, ok, err, map_err,
  min, if◌then◌else◌,
}

pub record NodeRecord : Type 0 where
  pub hostname : String
  pub os_version : String
  pub agent_version : String
  pub machine_id : String

-- The random ids and the clock of one enrolment.
pub record Stamp : Type 0 where
  pub node_id : Uuid
  pub event_id : Uuid
  pub now : DateTime

-- The row that `INSERT INTO nodes` makes.
abbrev pub new_node : Stamp → NodeRecord → Node
new_node stamp r = record {
  node_id = stamp.node_id;
  machine_id = r.machine_id;
  hostname = r.hostname;
  os_version = r.os_version;
  agent_version = r.agent_version;
  agent_status = "healthy";
  operator_status = "active";
  first_seen_at = stamp.now;
  last_enrolled_at = stamp.now;
}

-- The columns that a re-enrolment sets.
abbrev pub re_enroll : Stamp → NodeRecord → Node → Node
re_enroll stamp r n = record n {
  hostname = r.hostname;
  os_version = r.os_version;
  agent_version = r.agent_version;
  last_enrolled_at = stamp.now;
}

abbrev pub audit_event : Stamp → NodeRecord → Uuid → String → EnrollmentEvent
audit_event stamp r node_id event_type = record {
  event_id = stamp.event_id;
  node_id = node_id;
  event_type = event_type;
  hostname = r.hostname;
  os_version = r.os_version;
  agent_version = r.agent_version;
  enrolled_at = stamp.now;
}

-- The `match existing`: the node's id and the kind of the enrolment.
unfoldable pub upsert_row :
    Outages → Stamp → NodeRecord → Option Uuid → Db → Result String (Db × (Uuid × String))
upsert_row out stamp r none db =
    if out.second || has_node stamp.node_id db.nodes || has_machine r.machine_id db.nodes
    then err "insert nodes"
    else ok
        (record db { nodes = db.nodes ++ new_node stamp r ∷ [] }, (stamp.node_id, "new_enrollment"))
upsert_row out stamp r (some node_id) db =
    if out.second
    then err "update nodes"
    else ok (
      record db { nodes = update_nodes (re_enroll stamp r) node_id db.nodes },
      (node_id, "re_enrollment"),
    )

-- The audit event of step 2.
unfoldable pub write_audit :
    Outages → Stamp → NodeRecord → Result String (Db × (Uuid × String)) → Result String (Db × Uuid)
write_audit out stamp r (err e) = err e
write_audit out stamp r (ok (db, (node_id, event_type))) =
    if out.third
    then err "insert enrollment_events"
    else ok (
      record db {
        enrollment_events = db.enrollment_events ++ audit_event stamp r node_id event_type ∷ [];
      },
      node_id,
    )

-- The body of the transaction.
unfoldable pub upsert_tx : Outages → Stamp → NodeRecord → Db → Result String (Db × Uuid)
upsert_tx out stamp r db =
    if out.first
    then err "select nodes"
    else write_audit out stamp r (upsert_row out stamp r (select_node_id r.machine_id db.nodes) db)

-- `PgNodeStore::upsert_node`, with the id that `to_string` would print.
unfoldable pub upsert_node : Outages → Stamp → NodeRecord → Db → Db × Result String Uuid
upsert_node out stamp r db =
    if out.pool then (db, err "pool") else transaction out.commit db (upsert_tx out stamp r db)

pub record NodeClaims : Type 0 where
  pub node_id : String
  pub exp : ℕ

abbrev pub token_ttl_secs : ℕ
token_ttl_secs = 86400

-- `NodeEnrollmentError` as far as signing meets it.
pub data TokenError : Type 0 where
  clock : TokenError
  token_sign : String → TokenError

-- The claims at a time in seconds: `saturating_add` on a `u64`, and `usize` has 64 bits.
abbrev pub claims_at : String → ℕ → NodeClaims
claims_at node_id now_secs = record {
  node_id = node_id;
  exp = min (now_secs + token_ttl_secs) (2 ^ 64 - 1);
}

pub data Status : Type 0 where
  unauthenticated : String → Status
  internal : String → Status

pub record RegistrationResult : Type 0 where
  pub node_id : String
  pub token : String

module _ (encode : NodeClaims → List ℕ → Result String String) where
  -- `sign_token`; the clock reads `none` before the epoch.
  unfoldable pub sign_token : Option ℕ → String → List ℕ → Result TokenError String
  sign_token none node_id secret = err clock
  sign_token (some now_secs) node_id secret =
      map_err token_sign (encode (claims_at node_id now_secs) secret)

  abbrev pub with_token : String → Result TokenError String → Result Status RegistrationResult
  with_token node_id (err e) = err (internal "token signing failed")
  with_token node_id (ok token) = ok (record { node_id = node_id; token = token })

  abbrev pub enrolled :
      (Uuid → String) → List ℕ → Option ℕ → Result String Uuid → Result Status RegistrationResult
  enrolled show secret now (err e) = err (internal "enrollment failed")
  enrolled show secret now (ok id) = with_token (show id) (sign_token now (show id) secret)

  -- `NodeEnroller::register_agent`
  unfoldable pub register_agent :
      (Uuid → String)
      → List ℕ
      → Outages
      → Stamp
      → Option ℕ
      → NodeRecord
      → Db
      → Db × Result Status RegistrationResult
  register_agent show secret out stamp now r db =
      let (db', stored) = upsert_node out stamp r db in (db', enrolled show secret now stored)
