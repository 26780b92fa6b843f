-- ===== src/Api/Listing/Tests.antt =====
-- The listings at two alerts and a node, in pages of one.
use aigis_zero.Api.Errors.{error_code, status_code, from_diesel, unique_violation}
use aigis_zero.Api.Listing.{
  filter, insert_desc, order_desc, NodeFilterParams, summary, node_matches, list_nodes,
  AlertFilterParams, alert_matches, created_after, list_alerts, LogFilterParams, search_logs,
}
use aigis_zero.Api.Listing.Order.{walk, Reordered, same, swap}
use aigis_zero.Api.Listing.Pages.{
  calm, rows, alert_page, node_page, summary_after, Enumerates, listings-Enumerates,
}
use aigis_zero.Engine.Models.{NewAlertEntity}
use aigis_zero.Fleet.Database.{Node}
use aigis_zero.Prelude.{
  ℕ, zero, suc, Bool, true, String, List, [], ◌∷◌, map, none, some, pos, negsuc, ◌≡◌, refl, arith,
}

program : Unit {0}
unfolding filter insert_desc order_desc list_nodes list_alerts search_logs walk from_diesel
    error_code status_code
program = tt

abbrev alert : ℕ → ℕ → NewAlertEntity
alert id at = record {
  alert_id = id;
  node_id = 7;
  hostname = "h";
  severity = "high";
  source = "yara";
  mitre_technique_id = none;
  mitre_tactic = none;
  description = "d";
  triggering_event_id = none;
  threat_score = 0;
  status = "open";
  created_at = at;
}

abbrev alerts : List NewAlertEntity
alerts = alert 1 10 ∷ alert 2 20 ∷ []

abbrev node : Node
node = record {
  node_id = 7;
  machine_id = "m";
  hostname = "h";
  os_version = "o";
  agent_version = "a";
  agent_status = "healthy";
  operator_status = "active";
  first_seen_at = 1;
  last_enrolled_at = 1;
}

abbrev any_alert : AlertFilterParams
any_alert = record {
  severity = none;
  status = none;
  node_id = none;
  mitre_technique = none;
  limit = none;
  offset = none;
}

abbrev any_node : NodeFilterParams
any_node = record {
  agent_status = none;
  operator_status = none;
  search = none;
  limit = none;
  offset = none;
}

abbrev any_log : LogFilterParams
any_log = record {
  node_id = none;
  event_type = none;
  from_timestamp = none;
  to_timestamp = none;
  limit = some (pos 9999);
  offset = some (negsuc 3);
}

abbrev everywhere : String → String → Bool
everywhere s pattern = true

-- The newest alert comes first.
newest :
    map (λ (a : NewAlertEntity). a.alert_id) (rows (list_alerts calm any_alert alerts)) ≡ 2 ∷ 1 ∷ []
unfolding program
newest = refl

-- A violated constraint is a conflict.
conflicting : error_code (from_diesel (unique_violation "id")) ≡ "CONFLICT"
unfolding program
conflicting = refl

conflict_status : status_code (from_diesel (unique_violation "id")) ≡ 409
unfolding program
conflict_status = refl

-- The second page is read from the table the other way round.
abbrev alerts_read : ℕ → List NewAlertEntity
alerts_read zero = alerts
alerts_read (suc i) = alert 2 20 ∷ alert 1 10 ∷ []

reordered : (i : ℕ) → Reordered (λ (a : NewAlertEntity). a.created_at) alerts (alerts_read i)
reordered zero = same alerts
reordered (suc i) = swap (alert 1 10) (alert 2 20) [] refl

listings-Enumerates_example :
    Enumerates summary_after
      (map summary (filter (node_matches everywhere any_node) (node ∷ [])))
      (walk (λ i. rows (list_nodes everywhere calm (node_page 1 any_node i) (node ∷ []))) 2)
    × Enumerates created_after
        (filter (alert_matches any_alert) alerts)
        (walk (λ i. rows (list_alerts calm (alert_page 1 any_alert i) (alerts_read i))) 2)
unfolding program
listings-Enumerates_example =
    listings-Enumerates 1 2 (omega arith) (omega arith) everywhere any_node any_alert (node ∷ [])
      alerts (λ i. node ∷ []) alerts_read (λ i. same (node ∷ [])) reordered (omega arith)
      (omega arith)
