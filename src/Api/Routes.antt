-- ===== src/Api/Routes.antt =====
-- The routes of api-backend/src/routes with the handlers of api-backend/src/handlers: a request after
-- its path, query and body have been read, which axum does, and its answer. The time in an answer's
-- `meta` is left out.
pub mod Guarded
mod Tests
use aigis_zero.Api.Auth.{
  LoginRequest, LoginResponse, UserInfo, Claims, Headers, login, me, from_request_parts,
}
use aigis_zero.Api.Errors.{AppError, DieselError, error_code, status_code, error_text}
use aigis_zero.Api.Events.{NewEventLogEntity}
use aigis_zero.Api.Listing.{
  NodeFilterParams, NodeSummaryDto, NodeDetailDto, AlertFilterParams, LogFilterParams, list_nodes,
  get_node_by_id, list_alerts, get_alert_by_id, search_logs, get_log_by_id,
}
use aigis_zero.Api.Listing
use aigis_zero.Api.Nodes.{IsolateNodeResponse, IsolateCommand, Served, isolate_node, unisolate_node}
use aigis_zero.Api.Nodes
use aigis_zero.Api.Settings.{Settings}
use aigis_zero.Api.Triage.{
  UpdateAlertStatusRequest, UpdateAlertStatusResponse, update_status, readyz,
}
use aigis_zero.Engine.Models.{Uuid, DateTime, NewAlertEntity}
use aigis_zero.Fleet.Database.{Db}
use aigis_zero.Prelude.{ℕ, String, Bool, List, ◌++◌, Option, Result, ok, err, ℤ, ◌<>◌}

pub data AuthRequest : Type 0 where
  login_request : LoginRequest → AuthRequest
  me_request : AuthRequest

pub data NodeRequest : Type 0 where
  nodes_request : NodeFilterParams → NodeRequest
  node_request : Uuid → NodeRequest
  isolate_request : Uuid → Option String → NodeRequest
  unisolate_request : Uuid → NodeRequest

pub data AlertRequest : Type 0 where
  alerts_request : AlertFilterParams → AlertRequest
  alert_request : Uuid → AlertRequest
  status_request : Uuid → UpdateAlertStatusRequest → AlertRequest

pub data LogRequest : Type 0 where
  logs_request : LogFilterParams → LogRequest
  log_request : Uuid → LogRequest

pub data Request : Type 0 where
  auth : AuthRequest → Request
  nodes : NodeRequest → Request
  alerts : AlertRequest → Request
  logs : LogRequest → Request
  ws : Option String → Option String → Request
  health ready : Request

pub data Method : Type 0 where
  get post patch : Method

-- `auth_routes` and its siblings: the method and the pattern of each route.
unfoldable pub auth_routes : AuthRequest → Method × String
auth_routes (login_request req) = (post, "/login")
auth_routes me_request = (get, "/me")

unfoldable pub node_routes : NodeRequest → Method × String
node_routes (nodes_request params) = (get, "/")
node_routes (node_request id) = (get, "/{id}")
node_routes (isolate_request id reason) = (post, "/{id}/isolate")
node_routes (unisolate_request id) = (post, "/{id}/unisolate")

unfoldable pub alert_routes : AlertRequest → Method × String
alert_routes (alerts_request params) = (get, "/")
alert_routes (alert_request id) = (get, "/{id}")
alert_routes (status_request id req) = (patch, "/{id}/status")

unfoldable pub log_routes : LogRequest → Method × String
log_routes (logs_request params) = (get, "/")
log_routes (log_request id) = (get, "/{id}")

-- `nest`
abbrev pub nest : String → Method × String → Method × String
nest prefix (m, path) = (m, prefix <> path)

-- `create_router`: where each request is served.
unfoldable pub create_router : Request → Method × String
unfolding auth_routes node_routes alert_routes log_routes
create_router (auth r) = nest "/api/v1" (nest "/auth" (auth_routes r))
create_router (nodes r) = nest "/api/v1" (nest "/nodes" (node_routes r))
create_router (alerts r) = nest "/api/v1" (nest "/alerts" (alert_routes r))
create_router (logs r) = nest "/api/v1" (nest "/logs" (log_routes r))
create_router (ws topics node_id) = nest "/api/v1" (get, "/ws")
create_router health = (get, "/healthz")
create_router ready = (get, "/readyz")

-- The data of an answer, or the code and the message of an error.
pub data Body : Type 0 where
  session : LoginResponse → Body
  user : UserInfo → Body
  node_page : List NodeSummaryDto × ℕ → Body
  node : NodeDetailDto → Body
  isolation : IsolateNodeResponse → Body
  alert_page : List NewAlertEntity × ℕ → Body
  alert : NewAlertEntity → Body
  alert_status : UpdateAlertStatusResponse → Body
  log_page : List NewEventLogEntity → Body
  log : NewEventLogEntity → Body
  healthy : Body
  readiness : String → List String → Body
  failure : String → String → Body

-- An answer with a status, or the upgrade of the connection to a socket with a subscription.
pub data Response : Type 0 where
  answered : ℕ → Body → Response
  upgraded : Option String → Option String → Response

-- `into_response` of a handler's result.
abbrev pub into_response {ℓ} : {A : Type ℓ} → (A → Body) → Result AppError A → Response
into_response body (ok a) = answered 200 (body a)
into_response body (err e) = answered (status_code e) (failure (error_code e) (error_text e))

-- The tables of the three databases, and the commands handed to the fleet client.
pub record State : Type 0 where
  pub db : Db
  pub alerts : List NewAlertEntity
  pub logs : List NewEventLogEntity
  pub commands : List IsolateCommand

-- What one request meets: the failures of its statements and pools, and the clock.
pub record Meets : Type 0 where
  pub out : Listing.Outages
  pub second : Option DieselError
  pub update_out : Nodes.Outages
  pub now : DateTime
  pub now_secs : ℤ
  pub nodes_up : Bool
  pub alerts_up : Bool
  pub logs_up : Bool

-- A handler that takes an `AuthUser` runs for a request that is let in; else the error is answered.
abbrev pub admitted :
    Result AppError Claims → (Claims → State × Response) → State → State × Response
admitted (ok claims) handler s = handler claims
admitted (err e) handler s = (s, answered (status_code e) (failure (error_code e) (error_text e)))

abbrev pub readiness_of : ℕ × String × List String → Response
readiness_of (status, text, services) = answered status (readiness text services)

-- The state after a change of a node, and after one of an alert.
abbrev pub served : State → Served → State × Response
served s r =
    (record s { db = r.db; commands = s.commands ++ r.commands }, into_response isolation r.answer)

abbrev pub triaged :
    State → List NewAlertEntity × Result AppError UpdateAlertStatusResponse → State × Response
triaged s (rows, r) = (record s { alerts = rows }, into_response alert_status r)

module _ (verify_password : String → String → Bool)
    (encode : Claims → String → Result String String)
    (decode : String → String → Result String Claims) (ilike : String → String → Bool)
    (show : Uuid → String) (config : Settings) where
  abbrev pub guard : Headers → (Claims → State × Response) → State → State × Response
  guard headers handler s = admitted (from_request_parts decode config headers) handler s

  -- handlers/auth.rs
  unfoldable pub auth_handler : Meets → Headers → AuthRequest → State → State × Response
  auth_handler m headers (login_request req) s =
      (s, into_response session (login verify_password encode config m.now_secs req))
  auth_handler m headers me_request s =
      guard headers (λ claims. (s, into_response user (me claims))) s

  -- handlers/nodes.rs
  unfoldable pub node_handler : Meets → Headers → NodeRequest → State → State × Response
  node_handler m headers (nodes_request params) s =
      guard headers
        (λ claims. (s, into_response node_page (list_nodes ilike m.out params s.db.nodes))) s
  node_handler m headers (node_request id) s =
      guard headers (λ claims. (s, into_response node (get_node_by_id show m.out m.second id s.db)))
        s
  node_handler m headers (isolate_request id reason) s =
      guard headers (λ claims. served s (isolate_node show m.update_out m.now id reason s.db)) s
  node_handler m headers (unisolate_request id) s =
      guard headers (λ claims. served s (unisolate_node show m.update_out m.now id s.db)) s

  -- handlers/alerts.rs
  unfoldable pub alert_handler : Meets → Headers → AlertRequest → State → State × Response
  alert_handler m headers (alerts_request params) s =
      guard headers (λ claims. (s, into_response alert_page (list_alerts m.out params s.alerts))) s
  alert_handler m headers (alert_request id) s =
      guard headers (λ claims. (s, into_response alert (get_alert_by_id show m.out id s.alerts))) s
  alert_handler m headers (status_request id req) s =
      guard headers (λ claims. triaged s (update_status show m.update_out m.now id req s.alerts)) s

  -- handlers/logs.rs
  unfoldable pub log_handler : Meets → Headers → LogRequest → State → State × Response
  log_handler m headers (logs_request params) s =
      guard headers (λ claims. (s, into_response log_page (search_logs m.out params s.logs))) s
  log_handler m headers (log_request id) s =
      guard headers (λ claims. (s, into_response log (get_log_by_id show m.out id s.logs))) s

  -- The handler of each route. The socket's takes no `AuthUser`.
  unfoldable pub serve : Meets → Headers → Request → State → State × Response
  unfolding auth_handler node_handler alert_handler log_handler
  serve m headers (auth r) s = auth_handler m headers r s
  serve m headers (nodes r) s = node_handler m headers r s
  serve m headers (alerts r) s = alert_handler m headers r s
  serve m headers (logs r) s = log_handler m headers r s
  serve m headers (ws topics node_id) s = (s, upgraded topics node_id)
  serve m headers health s = (s, answered 200 healthy)
  serve m headers ready s = (s, readiness_of (readyz m.nodes_up m.alerts_up m.logs_up))
