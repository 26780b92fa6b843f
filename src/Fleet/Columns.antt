-- ===== src/Fleet/Columns.antt =====
-- What no request of an agent changes in the table of nodes: of a row the id, the machine, the
-- operator's status and the time of the first sight; and rows are only added.
use aigis_zero.Engine.Models.{Uuid, DateTime}
use aigis_zero.Fleet.Database.{
  Node, Db, Outages, update_nodes, select_node_id, has_node, has_machine, transaction,
}
use aigis_zero.Fleet.Enrollment.{
  NodeRecord, Stamp, NodeClaims, new_node, re_enroll, upsert_row, write_audit, upsert_tx,
  upsert_node, register_agent, Status, RegistrationResult,
}
use aigis_zero.Fleet.Gateway.{
  MetadataMap, Enrolling, Config, admits, register, Beating, validate_token, heartbeat,
  heartbeat_with,
}
use aigis_zero.Fleet.Health.{
  AgentHeartbeat, HeartbeatRecord, set_agent_status, heartbeat_tx, store_heartbeat, stamped,
  record_parsed, record_heartbeat,
}
use aigis_zero.Prelude.{
  ℕ, String, Bool, true, false, not, ◌||◌, List, [], ◌∷◌, ◌++◌, map, Option, none, some, Result, ok,
  err, Bool-cases, ◌≡◌, refl, sym, inl, inr, map-append, if_elim, append-nil, append_assoc, All,
  All-append, ◌==◌,
}

pub record Fixed : Type 0 where
  pub node_id : Uuid
  pub machine_id : String
  pub operator_status : String
  pub first_seen_at : DateTime

abbrev pub fixed : Node → Fixed
fixed n = record {
  node_id = n.node_id;
  machine_id = n.machine_id;
  operator_status = n.operator_status;
  first_seen_at = n.first_seen_at;
}

abbrev pub fixed_columns : Db → List Fixed
fixed_columns db = map fixed db.nodes

-- The second list is the first one with rows of active nodes behind it.
abbrev pub Extends : List Fixed → List Fixed → Type 0
Extends xs ys =
    (new : List Fixed) × (ys ≡ xs ++ new) × All (λ (f : Fixed). f.operator_status ≡ "active") new

pub Extends-refl : (xs : List Fixed) → Extends xs xs
Extends-refl xs = ([], sym (append-nil xs), tt)

pub Extends-trans : (xs ys zs : List Fixed) → Extends xs ys → Extends ys zs → Extends xs zs
Extends-trans xs ys zs (new, e, a) (later, e', a') = (
  new ++ later,
  rw (e', e) (append_assoc xs new later),
  All-append (λ (f : Fixed). f.operator_status ≡ "active") new later a a',
)

-- An update that keeps the columns of each row keeps those of the table.
pub map-update_nodes :
    (set : Node → Node) (keeps : (n : Node) → fixed (set n) ≡ fixed n) (id : Uuid) (ns : List Node)
    → map fixed (update_nodes set id ns) ≡ map fixed ns
unfolding update_nodes
map-update_nodes set keeps id [] = refl
map-update_nodes set keeps id (n ∷ ns) = elim (Bool-cases (n.node_id == id)) [
  | inl e ↦ rw (e, keeps n, map-update_nodes set keeps id ns) refl
  | inr e ↦ rw (e, map-update_nodes set keeps id ns) refl
]

-- What a result leaves behind extends a table.
abbrev pub Leaves {ℓ} : {A : Type ℓ} → Db → Result String (Db × A) → Type 0
Leaves db (err e) = Unit
Leaves db (ok (db', a)) = Extends (fixed_columns db) (fixed_columns db')

pub transaction-Extends {ℓ} :
    {A : Type ℓ} (commit : Bool) (db : Db) (r : Result String (Db × A))
    → Leaves db r
    → Extends (fixed_columns db) (fixed_columns (transaction commit db r).0)
transaction-Extends commit db (err e) h = Extends-refl (fixed_columns db)
transaction-Extends true db (ok (db', a)) h = Extends-refl (fixed_columns db)
transaction-Extends false db (ok (db', a)) h = h

module _ (out : Outages) (stamp : Stamp) (r : NodeRecord) where
  upsert_row-Leaves :
      (found : Option Uuid) (db : Db)
      → Leaves {A = Uuid × String} db (upsert_row out stamp r found db)
  unfolding upsert_row
  upsert_row-Leaves none db =
      if_elim (Leaves {A = Uuid × String} db)
        (out.second || has_node stamp.node_id db.nodes || has_machine r.machine_id db.nodes) tt
        (
          fixed (new_node stamp r) ∷ [],
          map-append fixed db.nodes (new_node stamp r ∷ []),
          (refl, tt),
        )
  upsert_row-Leaves (some id) db = if_elim (Leaves {A = Uuid × String} db) out.second tt (
      rw (map-update_nodes (re_enroll stamp r) (λ n. refl) id db.nodes)
        (Extends-refl (fixed_columns db)))

  write_audit-Leaves :
      (db : Db) (u : Result String (Db × (Uuid × String)))
      → Leaves {A = Uuid × String} db u
      → Leaves {A = Uuid} db (write_audit out stamp r u)
  unfolding write_audit
  write_audit-Leaves db (err e) h = tt
  write_audit-Leaves db (ok (db', (id, kind))) h = if_elim (Leaves {A = Uuid} db) out.third tt h

  pub upsert_node-Extends :
      (db : Db) → Extends (fixed_columns db) (fixed_columns (upsert_node out stamp r db).0)
  unfolding upsert_node upsert_tx
  upsert_node-Extends db =
      let found = select_node_id r.machine_id db.nodes in
      if_elim (λ (p : Db × Result String Uuid). Extends (fixed_columns db) (fixed_columns p.0))
        out.pool (Extends-refl (fixed_columns db))
        (transaction-Extends out.commit db (upsert_tx out stamp r db) (
          if_elim (Leaves {A = Uuid} db) out.first tt
            (write_audit-Leaves db (upsert_row out stamp r found db) (upsert_row-Leaves found db))))

module _ (out : Outages) (id : Uuid) where
  heartbeat_tx-Leaves :
      (node_id : Uuid) (r : HeartbeatRecord) (db : Db)
      → Leaves {A = Unit {0}} db (heartbeat_tx out id node_id r db)
  unfolding heartbeat_tx
  heartbeat_tx-Leaves node_id r db =
      if_elim (Leaves {A = Unit {0}} db) (out.first || not (has_node node_id db.nodes)) tt (
        if_elim (Leaves {A = Unit {0}} db) out.second tt (
          rw (map-update_nodes (set_agent_status r.agent_status) (λ n. refl) node_id db.nodes)
            (Extends-refl (fixed_columns db))))

  pub record_parsed-Extends :
      (parse : String → Result String Uuid) (r : HeartbeatRecord) (parsed : Result String Uuid)
      (db : Db)
      → Extends (fixed_columns db) (fixed_columns (record_parsed parse out id r parsed db).0)
  record_parsed-Extends parse r (err e) db = Extends-refl (fixed_columns db)
  record_parsed-Extends parse r (ok node_id) db =
      if_elim
        (λ (p : Db × Result String (Unit {0})). Extends (fixed_columns db) (fixed_columns p.0))
        out.pool (Extends-refl (fixed_columns db))
        (transaction-Extends out.commit db (heartbeat_tx out id node_id r db)
          (heartbeat_tx-Leaves node_id r db))

  pub record_heartbeat-Extends :
      (parse : String → Result String Uuid) (now : DateTime) (hb : AgentHeartbeat) (db : Db)
      → Extends (fixed_columns db) (fixed_columns (record_heartbeat parse out id now hb db).0)
  unfolding record_heartbeat store_heartbeat
  record_heartbeat-Extends parse now hb db =
      record_parsed-Extends parse (stamped now hb) (parse hb.node_id) db

-- A unary request of an agent, with what it meets.
pub data Request : Type 0 where
  enrolling : MetadataMap → Enrolling → NodeRecord → Request
  beating : MetadataMap → Beating → AgentHeartbeat → Request

module _ (encode : NodeClaims → List ℕ → Result String String)
    (decode : String → Result String NodeClaims) (show : Uuid → String)
    (parse : String → Result String Uuid) (config : Config) where
  -- The tables after one request, and after several.
  unfoldable pub serve : Request → Db → Db
  serve (enrolling metadata e r) db = (register encode show config metadata e r db).0
  serve (beating metadata b hb) db = (heartbeat decode parse metadata b hb db).0

  unfoldable pub serve_all : List Request → Db → Db
  serve_all [] db = db
  serve_all (q ∷ qs) db = serve_all qs (serve q db)

  heartbeat_with-Extends :
      (v : Result Status NodeClaims) (b : Beating) (hb : AgentHeartbeat) (db : Db)
      → Extends (fixed_columns db) (fixed_columns (heartbeat_with decode parse v b hb db).0)
  heartbeat_with-Extends (err e) b hb db = Extends-refl (fixed_columns db)
  heartbeat_with-Extends (ok claims) b hb db =
      record_heartbeat-Extends b.out b.health_id parse b.now hb db

  serve-Extends : (q : Request) (db : Db) → Extends (fixed_columns db) (fixed_columns (serve q db))
  unfolding serve register register_agent heartbeat
  serve-Extends (enrolling metadata e r) db =
      if_elim
        (λ (p : Db × Result Status RegistrationResult).
          Extends (fixed_columns db) (fixed_columns p.0))
        (admits config.enrollment_secret metadata) (upsert_node-Extends e.out e.stamp r db)
        (Extends-refl (fixed_columns db))
  serve-Extends (beating metadata b hb) db =
      heartbeat_with-Extends (validate_token decode metadata) b hb db

  -- Whatever agents send, in any order and with any failures, the id, the machine, the operator's
  -- status and the first sight of every known node stay as they are, no row goes, and every row
  -- that is added is one of an active node.
  pub serve_all-Extends :
      (qs : List Request) (db : Db) → Extends (fixed_columns db) (fixed_columns (serve_all qs db))
  unfolding serve_all
  serve_all-Extends [] db = Extends-refl (fixed_columns db)
  serve_all-Extends (q ∷ qs) db =
      Extends-trans (fixed_columns db) (fixed_columns (serve q db))
        (fixed_columns (serve_all qs (serve q db))) (serve-Extends q db)
        (serve_all-Extends qs (serve q db))
