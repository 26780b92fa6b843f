-- ===== src/Engine/Transform.antt =====
-- rule-engine/src/engine/transform.rs: an alert from a rule match and the rule's metadata. The
-- casts to `f32` are parameters.
use Prim.Native.String
use aigis_zero.Engine.Mitre.{MitreTaxonomy, enrich_alert}
use aigis_zero.Engine.Models.{
  Uuid, DateTime, F32, five, AlertSeverity, low, medium, high, critical, yara_x, TelemetryEvent,
  Alert,
}
use aigis_zero.Json.{Bytes}
use aigis_zero.Prelude.{
  ℕ, String, Bool, List, [], ◌∷◌, Option, none, some, if◌then◌else◌, str_eq, lower_eq, ℤ,
}

-- `yara_x::MetaValue`; a float is its bit pattern.
pub data MetaValue : Type 0 where
  integer : ℤ → MetaValue
  float : ℕ → MetaValue
  boolean : Bool → MetaValue
  text : String → MetaValue
  bytes : Bytes → MetaValue

-- A matching rule: `identifier()` and `metadata()`.
pub record Rule : Type 0 where
  pub identifier : String
  pub metadata : List (String × MetaValue)

-- The casts `v as f32` from `i64` and from `f64`.
pub record Casts : Type 0 where
  pub of_i64 : ℤ → F32
  pub of_f64 : ℕ → F32

-- The variables of the loop over the metadata.
pub record Fields : Type 0 where
  pub technique_id : Option String
  pub severity : AlertSeverity
  pub threat_score : F32
  pub description : String

unfoldable pub severity_of : String → AlertSeverity
severity_of v =
    if lower_eq v "critical"
    then critical
    else if lower_eq v "high"
    then high
    else if lower_eq v "medium"
    then medium
    else low

abbrev pub set_technique : MetaValue → Fields → Fields
set_technique (text v) f = record f { technique_id = some v }
set_technique (integer v) f = f
set_technique (float v) f = f
set_technique (boolean v) f = f
set_technique (bytes v) f = f

abbrev pub set_severity : MetaValue → Fields → Fields
set_severity (text v) f = record f { severity = severity_of v }
set_severity (integer v) f = f
set_severity (float v) f = f
set_severity (boolean v) f = f
set_severity (bytes v) f = f

abbrev pub set_description : MetaValue → Fields → Fields
set_description (text v) f = record f { description = v }
set_description (integer v) f = f
set_description (float v) f = f
set_description (boolean v) f = f
set_description (bytes v) f = f

module _ (casts : Casts) where
  abbrev pub set_score : MetaValue → Fields → Fields
  set_score (integer v) f = record f { threat_score = casts.of_i64 v }
  set_score (float v) f = record f { threat_score = casts.of_f64 v }
  set_score (text v) f = f
  set_score (boolean v) f = f
  set_score (bytes v) f = f

  -- One round of the loop.
  unfoldable pub read_meta : String → MetaValue → Fields → Fields
  read_meta key value f =
      if str_eq key "mitre_technique"
      then set_technique value f
      else if str_eq key "severity"
      then set_severity value f
      else if str_eq key "threat_score"
      then set_score value f
      else if str_eq key "description"
      then set_description value f
      else f

  unfoldable pub read_metadata : List (String × MetaValue) → Fields → Fields
  read_metadata [] f = f
  read_metadata ((key, value) ∷ more) f = read_metadata more (read_meta key value f)

  abbrev pub defaults : Rule → Fields
  defaults rule = record {
    technique_id = none;
    severity = medium;
    threat_score = five;
    description = String.◌++◌ "YARA rule '" (String.◌++◌ rule.identifier "' matched");
  }

  -- `build_alert`, with the fresh id and the time that it takes.
  unfoldable pub build_alert : Uuid → DateTime → TelemetryEvent → Rule → MitreTaxonomy → Alert
  build_alert alert_id now event matched_rule mitre =
      let f = read_metadata matched_rule.metadata (defaults matched_rule) in
      let alert : Alert = record {
        alert_id = alert_id;
        node_id = event.node_id;
        hostname = event.hostname;
        severity = f.severity;
        source = yara_x;
        mitre_technique_id = f.technique_id;
        mitre_tactic = none;
        description = f.description;
        triggering_event_id = some event.id;
        threat_score = f.threat_score;
        status = "open";
        created_at = now;
      } in
      elim f.technique_id [ none ↦ alert | some tech_id ↦ enrich_alert mitre tech_id alert ]
