-- ===== src/Api/Routes/Tests.antt =====
-- Requests without a token, and one with it.
use aigis_zero.Api.Auth.{Claims, Headers, from_request_parts}
use aigis_zero.Api.Errors.{unauthorized, error_code, error_text, status_code}
use aigis_zero.Api.Nodes.{isolate_node, update_operator_status, find_node}
use aigis_zero.Api.Routes.{
  nodes, ws, isolate_request, answered, upgraded, failure, post, State, Meets, create_router, serve,
  auth_handler, node_handler, alert_handler, log_handler,
}
use aigis_zero.Api.Routes.Guarded.{serve-refused, kept_out}
use aigis_zero.Api.Settings.{Settings}
use aigis_zero.Prelude.{
  ℕ, String, Bool, true, [], ◌∷◌, none, some, Result, ok, err, pos, ◌≡◌, refl, lookup, strip_prefix,
  trim, trim_start_by, trim_end_by, if◌then◌else◌, str_eq,
}
use native.Mathlib.Decide.{ℕ_discrete}

program : Unit {0}
unfolding serve auth_handler node_handler alert_handler log_handler create_router from_request_parts
    lookup strip_prefix trim trim_start_by trim_end_by error_code error_text status_code
    isolate_node update_operator_status find_node ℕ_discrete
program = tt

abbrev config : Settings
config = record {
  host = "";
  port = 0;
  database_url_nodes = "";
  database_url_alerts = "";
  database_url_logs = "";
  db_pool_max_size = 0;
  kafka_brokers = "";
  kafka_consumer_group = "";
  fleet_grpc_url = "";
  jwt_secret = "";
  jwt_expiration_secs = pos 0;
  admin_default_user = "";
  admin_default_password = "";
}

abbrev matches : String → String → Bool
matches a b = true

abbrev signs : Claims → String → Result String String
signs claims secret = ok "t"

abbrev operator : Claims
operator = record { sub = "admin"; role = "soc_admin"; exp = pos 9; iat = pos 1 }

-- One token decodes.
abbrev knows : String → String → Result String Claims
knows secret token = if str_eq token "t" then ok operator else err "InvalidToken"

abbrev show : ℕ → String
show id = "id"

abbrev calm : Meets
calm = record {
  out = record { pool = none; statement = none };
  second = none;
  update_out = record { pool = none; update = none };
  now = 5;
  now_secs = pos 5;
  nodes_up = true;
  alerts_up = true;
  logs_up = true;
}

abbrev empty : State
empty = record {
  db = record { nodes = []; node_health = []; enrollment_events = [] };
  alerts = [];
  logs = [];
  commands = [];
}

abbrev bad : Headers
bad = ("authorization", some "Bearer x") ∷ []

abbrev good : Headers
good = ("authorization", some "Bearer t") ∷ []

isolating : create_router (nodes (isolate_request 7 none)) ≡ (post, "/api/v1/nodes/{id}/isolate")
unfolding program
isolating = refl

unknown_node :
    serve matches signs knows matches show config calm good (nodes (isolate_request 7 none)) empty
    ≡ (
      empty,
      answered 404 (failure "RESOURCE_NOT_FOUND" "Resource not found: Node with id 'id' not found"),
    )
unfolding program
unknown_node = refl

-- The live events go to everyone.
socket :
    serve matches signs knows matches show config calm [] (ws none none) empty
    ≡ (empty, upgraded none none)
unfolding program
socket = refl

serve-refused_example :
    serve matches signs knows matches show config calm bad (nodes (isolate_request 7 none)) empty
    ≡ (
      empty,
      kept_out matches signs knows matches show config
          (unauthorized "Invalid or expired token: InvalidToken"),
    )
unfolding from_request_parts lookup strip_prefix trim trim_start_by trim_end_by ℕ_discrete
serve-refused_example =
    serve-refused matches signs knows matches show config calm bad (nodes (isolate_request 7 none))
      empty (unauthorized "Invalid or expired token: InvalidToken") refl refl
