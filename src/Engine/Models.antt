-- ===== src/Engine/Models.antt =====
-- rule-engine/src/models.rs. A UUID is its 128-bit number, a time a number of nanoseconds, an `f32`
-- its bit pattern.
use aigis_zero.Json.{Value}
use aigis_zero.Prelude.{ℕ, String, Option, Bool, ◌||◌, ◌==◌, ℤ}

abbrev pub Uuid : Type 0
Uuid = ℕ

abbrev pub DateTime : Type 0
DateTime = ℕ

abbrev pub F32 : Type 0
F32 = ℕ

-- 5.0, and the test `== 0.0`, which both zeros pass.
abbrev pub five : F32
five = 0x40a00000

abbrev pub is_zero : F32 → Bool
is_zero x = x == 0 || x == 0x80000000

pub data AlertSeverity : Type 0 where
  low medium high critical : AlertSeverity

unfoldable pub severity_as_str : AlertSeverity → String
severity_as_str low = "low"
severity_as_str medium = "medium"
severity_as_str high = "high"
severity_as_str critical = "critical"

pub data DetectionSource : Type 0 where
  yara_x sigma mitre behavioral : DetectionSource

unfoldable pub source_as_str : DetectionSource → String
source_as_str yara_x = "yara_x"
source_as_str sigma = "sigma"
source_as_str mitre = "mitre"
source_as_str behavioral = "behavioral"

pub record TelemetryEvent : Type 0 where
  pub id : String
  pub node_id : Uuid
  pub hostname : String
  pub event_type : String
  pub timestamp_ns : ℤ
  pub payload : Value
  pub raw_sequence_id : Option String

pub record Alert : Type 0 where
  pub alert_id : Uuid
  pub node_id : Uuid
  pub hostname : String
  pub severity : AlertSeverity
  pub source : DetectionSource
  pub mitre_technique_id : Option String
  pub mitre_tactic : Option String
  pub description : String
  pub triggering_event_id : Option String
  pub threat_score : F32
  pub status : String
  pub created_at : DateTime

pub record NewAlertEntity : Type 0 where
  pub alert_id : Uuid
  pub node_id : Uuid
  pub hostname : String
  pub severity : String
  pub source : String
  pub mitre_technique_id : Option String
  pub mitre_tactic : Option String
  pub description : String
  pub triggering_event_id : Option String
  pub threat_score : F32
  pub status : String
  pub created_at : DateTime

-- `NewAlertEntity::from(&alert)`
unfoldable pub entity_of : Alert → NewAlertEntity
unfolding severity_as_str source_as_str
entity_of a = record {
  alert_id = a.alert_id;
  node_id = a.node_id;
  hostname = a.hostname;
  severity = severity_as_str a.severity;
  source = source_as_str a.source;
  mitre_technique_id = a.mitre_technique_id;
  mitre_tactic = a.mitre_tactic;
  description = a.description;
  triggering_event_id = a.triggering_event_id;
  threat_score = a.threat_score;
  status = a.status;
  created_at = a.created_at;
}
