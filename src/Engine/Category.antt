-- ===== src/Engine/Category.antt =====
-- The rule category of an event, from `YaraScannerEngine::evaluate` (rule-engine/src/engine/scanner.rs).
use aigis_zero.Engine.Models.{TelemetryEvent}
use aigis_zero.Json.{get, as_str}
use aigis_zero.Prelude.{String, List, [], ◌∷◌, none, some, if◌then◌else◌, str_eq, one_of, and_then}

abbrev pub process_arm : List String
process_arm =
    "process" ∷ "processes" ∷ "running_processes" ∷ "process_start" ∷ "process_end"
    ∷ "process_events" ∷ "bpf_process_events" ∷ "osquery_result" ∷ "osquery_snapshot" ∷ []

abbrev pub network_arm : List String
network_arm =
    "network" ∷ "listening_ports" ∷ "network_connect" ∷ "network_listen" ∷ "socket_events"
    ∷ "bpf_socket_events" ∷ []

abbrev pub file_arm : List String
file_arm = "file" ∷ "file_create" ∷ "file_modify" ∷ "file_delete" ∷ "file_events" ∷ []

abbrev pub auth_arm : List String
auth_arm = "auth" ∷ "users" ∷ "user_login" ∷ "user_logout" ∷ "logged_in_users" ∷ []

unfoldable pub query_category : String → String
query_category qn =
    if one_of ("running_processes" ∷ "processes" ∷ []) qn
    then "process"
    else if one_of ("listening_ports" ∷ "network" ∷ []) qn
    then "network"
    else if str_eq qn "users"
    then "auth"
    else "custom"

unfoldable pub category : TelemetryEvent → String
unfolding query_category
category event =
    if one_of process_arm event.event_type
    then "process"
    else if one_of network_arm event.event_type
    then "network"
    else if one_of file_arm event.event_type
    then "file"
    else if one_of auth_arm event.event_type
    then "auth"
    else if str_eq event.event_type "custom"
    then "custom"
    else if str_eq event.event_type "osquery"
    then elim (and_then (get "query_name" event.payload) as_str) [
      | none ↦ "custom"
      | some qn ↦ query_category qn
    ]
    else event.event_type
