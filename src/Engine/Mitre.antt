-- ===== src/Engine/Mitre.antt =====
-- rule-engine/src/mitre/taxonomy.rs: the technique catalogue and the enrichment of an alert.
use aigis_zero.Engine.Models.{Alert, AlertSeverity, F32, is_zero}
use aigis_zero.Prelude.{String, List, Option, none, some, if◌then◌else◌, str_eq, lookup}

pub record MitreTechnique : Type 0 where
  pub technique_id : String
  pub technique_name : String
  pub tactic : String
  pub tactic_id : String
  pub default_severity : AlertSeverity
  pub base_threat_score : F32
  pub description : String

pub record MitreTaxonomy : Type 0 where
  pub techniques : List (String × MitreTechnique)

unfoldable pub resolve_technique : MitreTaxonomy → String → Option MitreTechnique
resolve_technique t technique_id = lookup technique_id t.techniques

unfoldable pub enrich_alert : MitreTaxonomy → String → Alert → Alert
enrich_alert t technique_id alert = elim (resolve_technique t technique_id) [
  | none ↦ alert
  | some tech ↦ record alert {
    mitre_tactic = some tech.tactic;
    description = if str_eq alert.description "" then tech.description else alert.description;
    threat_score =
        if is_zero alert.threat_score then tech.base_threat_score else alert.threat_score;
  }
]
