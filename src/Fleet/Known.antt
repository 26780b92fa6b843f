-- ===== src/Fleet/Known.antt =====
-- Under which id the table of nodes knows a machine.
use aigis_zero.Engine.Models.{Uuid}
use aigis_zero.Fleet.Database.{
  Node, Db, Outages, update_nodes, select_node_id, has_node, has_machine,
}
use aigis_zero.Fleet.Enrollment.{
  NodeRecord, Stamp, upsert_node, upsert_tx, upsert_row, write_audit, re_enroll,
}
use aigis_zero.Prelude.{
  String, true, false, List, [], ◌∷◌, ◌++◌, none, some, ok, ◌≡◌, refl, arith, ◌∙◌, inl, inr,
  Bool-cases, Option-cases, str_eq, str_eq_refl, ==_refl, ◌==◌,
}

-- Nothing fails.
abbrev pub calm : Outages
calm = record { pool = false; first = false; second = false; third = false; commit = false }

-- A table that knows the machine under the id.
abbrev pub Knows : String → Uuid → List Node → Type 0
Knows m id ns = (select_node_id m ns ≡ some id) × (has_node id ns ≡ true)

has_node-select_node_id :
    (m : String) (id : Uuid) (ns : List Node)
    → select_node_id m ns ≡ some id
    → has_node id ns ≡ true
unfolding select_node_id has_node
has_node-select_node_id m id [] h = cc
has_node-select_node_id m id (n ∷ ns) h = elim (Bool-cases (str_eq n.machine_id m)) [
  | inl e ↦ let h' : some n.node_id ≡ some id = rw e at h in ground arith
  | inr e ↦ rw (has_node-select_node_id m id ns (rw e at h)) (ground arith)
]

-- An update that keeps the id and the machine of each row.
Knows-update_nodes :
    (set : Node → Node)
    → ((n : Node) → (set n).node_id ≡ n.node_id)
    → ((n : Node) → (set n).machine_id ≡ n.machine_id)
    → (m : String) (id k : Uuid) (ns : List Node)
    → (select_node_id m (update_nodes set k ns) ≡ select_node_id m ns)
      × (has_node id (update_nodes set k ns) ≡ has_node id ns)
unfolding select_node_id has_node update_nodes
Knows-update_nodes set same_id same_machine m id k [] = (refl, refl)
Knows-update_nodes set same_id same_machine m id k (n ∷ ns) =
    let (s, h) = Knows-update_nodes set same_id same_machine m id k ns in
    elim (Bool-cases (n.node_id == k)) [
      | inl e ↦ rw (e, same_id n, same_machine n, s, h) (refl, refl)
      | inr e ↦ rw (e, s, h) (refl, refl)
    ]

has_machine-select_node_id :
    (m : String) (ns : List Node) → select_node_id m ns ≡ none → has_machine m ns ≡ false
unfolding select_node_id has_machine
has_machine-select_node_id m [] h = refl
has_machine-select_node_id m (n ∷ ns) h = elim (Bool-cases (str_eq n.machine_id m)) [
  | inl e ↦ let h' : some n.node_id ≡ none = rw e at h in cc
  | inr e ↦ rw e (has_machine-select_node_id m ns (rw e at h))
]

Knows-snoc :
    (m : String) (n : Node) (ns : List Node)
    → select_node_id m ns ≡ none
    → str_eq n.machine_id m ≡ true
    → Knows m n.node_id (ns ++ n ∷ [])
unfolding select_node_id has_node
Knows-snoc m n [] h k = rw (k, ==_refl n.node_id) (refl, refl)
Knows-snoc m n (x ∷ ns) h k = elim (Bool-cases (str_eq x.machine_id m)) [
  | inl e ↦ let h' : some x.node_id ≡ none = rw e at h in cc
  | inr e ↦ let (s, t) = Knows-snoc m n ns (rw e at h) k in rw (e, s, t) (refl, ground arith)
]

-- When nothing fails, the upsert gives the id under which the table then knows the machine.
pub upsert_node-Knows :
    (stamp : Stamp) (r : NodeRecord) (db : Db)
    → has_node stamp.node_id db.nodes ≡ false
    → (id : Uuid) × (db' : Db) × (upsert_node calm stamp r db ≡ (db', ok id))
      × Knows r.machine_id id db'.nodes
      × (db'.node_health ≡ db.node_health)
unfolding upsert_node upsert_tx upsert_row write_audit
upsert_node-Knows stamp r db fresh = elim (Option-cases (select_node_id r.machine_id db.nodes)) [
  | inl e ↦
      rw (e, fresh, has_machine-select_node_id r.machine_id db.nodes e)
        (_, _, refl, Knows-snoc r.machine_id _ db.nodes e (str_eq_refl r.machine_id), refl)
  | inr (id, e) ↦
      let (s, h) =
        Knows-update_nodes (re_enroll stamp r) (λ n. refl) (λ n. refl) r.machine_id id id
          db.nodes in
      rw e (_, _, refl, (s ∙ e, h ∙ has_node-select_node_id r.machine_id id db.nodes e), refl)
]
