-- ===== src/Api/Isolation.antt =====
-- That lifting an isolation undoes it.
use aigis_zero.Api.Nodes.{
  Outages, find_node, set_operator_status, updated, update_operator_status, dispatch,
  IsolateCommand, Served, isolation, lifting, isolate_node, unisolate_node,
}
use aigis_zero.Engine.Models.{Uuid, DateTime}
use aigis_zero.Fleet.Database.{Node, Db, update_nodes}
use aigis_zero.Prelude.{
  String, Bool, true, false, List, [], ◌∷◌, Option, none, some, and_then, map, Bool-cases, ◌≡◌,
  refl, sym, subst, ap, ◌∙◌, inl, inr, if◌then◌else◌, ◌==◌, All,
}

-- Every row of the node is one of an active node.
abbrev pub IsActive : Uuid → List Node → Type 0
IsActive id ns = All (λ (n : Node). (n.node_id == id) ≡ true → n.operator_status ≡ "active") ns

module _ (id : Uuid) where
  update_nodes-here :
      (set : Node → Node) (n : Node) (ns : List Node)
      → (n.node_id == id) ≡ true
      → update_nodes set id (n ∷ ns) ≡ set n ∷ update_nodes set id ns
  unfolding update_nodes
  update_nodes-here set n ns e =
      ap (λ b. if b then set n ∷ update_nodes set id ns else n ∷ update_nodes set id ns) e

  update_nodes-there :
      (set : Node → Node) (n : Node) (ns : List Node)
      → (n.node_id == id) ≡ false
      → update_nodes set id (n ∷ ns) ≡ n ∷ update_nodes set id ns
  unfolding update_nodes
  update_nodes-there set n ns e =
      ap (λ b. if b then set n ∷ update_nodes set id ns else n ∷ update_nodes set id ns) e

  abbrev isolated : List Node → List Node
  isolated ns = update_nodes (set_operator_status "isolated") id ns

  abbrev active : List Node → List Node
  active ns = update_nodes (set_operator_status "active") id ns

  active-isolated : (ns : List Node) → IsActive id ns → active (isolated ns) ≡ ns
  unfolding update_nodes
  active-isolated [] h = refl
  active-isolated (n ∷ ns) h = elim (Bool-cases (n.node_id == id)) [
    | inl e ↦
        let lifted = set_operator_status "active" (set_operator_status "isolated" n) in
        ap active (update_nodes-here (set_operator_status "isolated") n ns e)
        ∙ update_nodes-here (set_operator_status "active") (set_operator_status "isolated" n)
            (isolated ns) e
        ∙ ap (λ s. set_operator_status s n ∷ active (isolated ns)) (sym (h.0 e))
        ∙ ap (◌∷◌ n) (active-isolated ns h.1)
    | inr e ↦
        ap active (update_nodes-there (set_operator_status "isolated") n ns e)
        ∙ update_nodes-there (set_operator_status "active") n (isolated ns) e
        ∙ ap (◌∷◌ n) (active-isolated ns h.1)
  ]

  find_node-here :
      (n : Node) (ns : List Node) → (n.node_id == id) ≡ true → find_node id (n ∷ ns) ≡ some n
  unfolding find_node
  find_node-here n ns e = ap (λ b. if b then some n else find_node id ns) e

  find_node-there :
      (n : Node) (ns : List Node)
      → (n.node_id == id) ≡ false
      → find_node id (n ∷ ns) ≡ find_node id ns
  unfolding find_node
  find_node-there n ns e = ap (λ b. if b then some n else find_node id ns) e

  find_node-isolated :
      (ns : List Node) (n : Node)
      → find_node id ns ≡ some n
      → find_node id (isolated ns) ≡ some (set_operator_status "isolated" n)
  unfolding find_node
  find_node-isolated [] n h = cc
  find_node-isolated (m ∷ ns) n h = elim (Bool-cases (m.node_id == id)) [
    | inl e ↦
        ap (find_node id) (update_nodes-here (set_operator_status "isolated") m ns e)
        ∙ find_node-here (set_operator_status "isolated" m) (isolated ns) e
        ∙ ap (λ o. and_then o (λ (x : Node). some (set_operator_status "isolated" x)))
            (sym (find_node-here m ns e) ∙ h)
    | inr e ↦
        ap (find_node id) (update_nodes-there (set_operator_status "isolated") m ns e)
        ∙ find_node-there m (isolated ns) e
        ∙ find_node-isolated ns n (sym (find_node-there m ns e) ∙ h)
  ]

-- No outage.
abbrev pub working : Outages
working = record { pool = none; update = none }

abbrev pub orders : Served → List Bool
orders s = map (λ (c : IsolateCommand). c.isolate) s.commands

-- While the database does not fail, for a node that is known and active, an isolation that is lifted
-- later leaves all tables as they were, and hands the fleet client one command to isolate and then one to stop.
pub unisolate_node-isolate_node :
    (show : Uuid → String) (now later : DateTime) (id : Uuid) (reason : Option String) (db : Db)
    (n : Node)
    → find_node id db.nodes ≡ some n
    → IsActive id db.nodes
    → let s = isolate_node show working now id reason db in
      let s' = unisolate_node show working later id s.db in
      (s'.db ≡ db) × (orders s ≡ true ∷ []) × (orders s' ≡ false ∷ [])
unfolding isolate_node unisolate_node update_operator_status
unisolate_node-isolate_node show now later id reason db n h k =
    let found = find_node-isolated id db.nodes n h in
    let first =
      λ (o : Option Node). dispatch (isolation id reason) (updated show now id "isolated" db o) in
    let second =
      λ (d : Db) (o : Option Node). dispatch (lifting id) (updated show later id "active" d o) in
    subst
      (λ o.
        ((second (first o).db (find_node id (first o).db.nodes)).db ≡ db)
        × (orders (first o) ≡ true ∷ [])
        × (orders (second (first o).db (find_node id (first o).db.nodes)) ≡ false ∷ []))
      (sym h)
      (subst
        (λ o.
          ((second (first (some n)).db o).db ≡ db)
          × (orders (first (some n)) ≡ true ∷ [])
          × (orders (second (first (some n)).db o) ≡ false ∷ []))
        (sym found)
        (ap (λ ns. record db { nodes = ns }) (active-isolated id db.nodes k), refl, refl))
