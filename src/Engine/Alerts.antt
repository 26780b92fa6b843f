-- ===== src/Engine/Alerts.antt =====
-- What the alerts of one evaluation say of the event.
use aigis_zero.Engine.Category.{category}
use aigis_zero.Engine.Mitre.{MitreTaxonomy, resolve_technique, enrich_alert}
use aigis_zero.Engine.Models.{Uuid, DateTime, TelemetryEvent, Alert, yara_x}
use aigis_zero.Engine.Scanner.{
  EngineRegistry, ScanFailure, Fresh, build_alerts, scan_with, evaluate, extract_scannable_buffer,
}
use aigis_zero.Engine.Transform.{Rule, Casts, build_alert, read_metadata, defaults}
use aigis_zero.Json.{Bytes, Codec}
use aigis_zero.Prelude.{
  ℕ, suc, String, List, [], ◌∷◌, some, Result, ok, err, option_elim, result_elim, ◌≡◌, refl, All,
  lookup,
}

-- An alert of the event, as the engine opens it.
abbrev pub IsAlertOf : TelemetryEvent → Alert → Type 0
IsAlertOf event a =
    (a.node_id ≡ event.node_id)
    × (a.hostname ≡ event.hostname)
    × (a.triggering_event_id ≡ some event.id)
    × (a.source ≡ yara_x)
    × (a.status ≡ "open")

abbrev pub AllOf : TelemetryEvent → Result ScanFailure (List Alert) → Type 0
AllOf event (ok alerts) = All (IsAlertOf event) alerts
AllOf event (err e) = e.event_id ≡ event.id

build_alert-IsAlertOf :
    (casts : Casts) (id : Uuid) (now : DateTime) (event : TelemetryEvent) (rule : Rule)
    (mitre : MitreTaxonomy)
    → IsAlertOf event (build_alert casts id now event rule mitre)
unfolding build_alert enrich_alert
build_alert-IsAlertOf casts id now event rule mitre =
    let found = (read_metadata casts rule.metadata (defaults casts rule)).technique_id in
    option_elim (IsAlertOf event) found (refl, refl, refl, refl, refl)
      (λ tech_id.
        option_elim (IsAlertOf event) (resolve_technique mitre tech_id)
          (refl, refl, refl, refl, refl) (λ tech. (refl, refl, refl, refl, refl)))

module _ {Rules : Type 0} (scan : Rules → Bytes → Result String (List Rule)) (codec : Codec)
    (casts : Casts) (fresh : Fresh) where
  build_alerts-All :
      (i : ℕ) (event : TelemetryEvent) (rules : List Rule) (mitre : MitreTaxonomy)
      → All (IsAlertOf event) (build_alerts scan codec casts fresh i event rules mitre)
  unfolding build_alerts
  build_alerts-All i event [] mitre = tt
  build_alerts-All i event (rule ∷ rules) mitre = (
    build_alert-IsAlertOf casts (fresh.alert_id i) (fresh.now i) event rule mitre,
    build_alerts-All (suc i) event rules mitre,
  )

  scan_with-AllOf :
      (current : EngineRegistry Rules) (event : TelemetryEvent) (rules : Rules) (buffer : Bytes)
      → AllOf event (scan_with scan codec casts fresh current event rules buffer)
  scan_with-AllOf current event rules [] = tt
  scan_with-AllOf current event rules (b ∷ buffer) =
      result_elim (AllOf event) (scan rules (b ∷ buffer))
        (λ matching. build_alerts-All 0 event matching current.mitre) (λ e. refl)

  -- An evaluation gives only open YARA-X alerts of that event, for its node and host, or fails with
  -- the event's id.
  pub evaluate-AllOf :
      (current : EngineRegistry Rules) (event : TelemetryEvent)
      → AllOf event (evaluate scan codec casts fresh current event)
  unfolding evaluate
  evaluate-AllOf current event =
      option_elim (AllOf event) (lookup (category event) current.rule_sets) tt
        (λ rules. scan_with-AllOf current event rules (extract_scannable_buffer codec event))
