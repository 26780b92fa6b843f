-- ===== src/Api/Triage.antt =====
-- The triage of an alert: `update_status` of api-backend/src/repositories/alert_repo.rs and
-- services/alert_service.rs, on the table that the rule engine fills; and the readiness of
-- handlers/health.rs.
use aigis_zero.Api.Errors.{AppError, missing}
use aigis_zero.Api.Nodes.{Outages, failing}
use aigis_zero.Engine.Models.{Uuid, DateTime, NewAlertEntity}
use aigis_zero.Prelude.{
  ℕ, String, Bool, ◌&&◌, List, [], ◌∷◌, Option, none, some, Result, ok, err, if◌then◌else◌, ◌==◌,
}

-- The comment of a request is read by nothing.
pub record UpdateAlertStatusRequest : Type 0 where
  pub status : String
  pub comment : Option String

pub record UpdateAlertStatusResponse : Type 0 where
  pub alert_id : Uuid
  pub status : String
  pub updated_at : DateTime

abbrev pub set_status : String → NewAlertEntity → NewAlertEntity
set_status status a = record a { status = status }

-- `UPDATE alerts SET status WHERE alert_id = id`
unfoldable pub update_alerts : String → Uuid → List NewAlertEntity → List NewAlertEntity
update_alerts status id [] = []
update_alerts status id (a ∷ alerts) =
    let rest = update_alerts status id alerts in
    if a.alert_id == id then set_status status a ∷ rest else a ∷ rest

unfoldable pub find_alert : Uuid → List NewAlertEntity → Option NewAlertEntity
find_alert id [] = none
find_alert id (a ∷ alerts) = if a.alert_id == id then some a else find_alert id alerts

abbrev pub Updated : Type 0
Updated = List NewAlertEntity × Result AppError UpdateAlertStatusResponse

-- The update by the row that it returns.
abbrev pub updated :
    (Uuid → String)
    → DateTime
    → Uuid
    → UpdateAlertStatusRequest
    → List NewAlertEntity
    → Option NewAlertEntity
    → Updated
updated show now id req alerts none = (alerts, err (missing "Alert" (show id)))
updated show now id req alerts (some a) = (
  update_alerts req.status id alerts,
  ok (record { alert_id = a.alert_id; status = req.status; updated_at = now }),
)

-- `DieselAlertRepository::update_status`
unfoldable pub update_status :
    (Uuid → String)
    → Outages
    → DateTime
    → Uuid
    → UpdateAlertStatusRequest
    → List NewAlertEntity
    → Updated
update_status show out now id req alerts = elim (failing out) [
  | some e ↦ (alerts, err e)
  | none ↦ updated show now id req alerts (find_alert id alerts)
]

abbrev pub up_or_down : Bool → String
up_or_down up = if up then "up" else "down"

-- `readyz`: the status code, the status, and those of the three databases.
unfoldable pub readyz : Bool → Bool → Bool → ℕ × String × List String
readyz nodes alerts logs =
    let services = up_or_down nodes ∷ up_or_down alerts ∷ up_or_down logs ∷ [] in
    if nodes && (alerts && logs) then (200, "ready", services) else (503, "degraded", services)
