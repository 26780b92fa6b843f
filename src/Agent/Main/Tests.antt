-- ===== src/Agent/Main/Tests.antt =====
-- A start that enrols, and one of a process that is not root.
use aigis_zero.Agent.Client.{Dial, connect, connect_with_retry, retry_loop}
use aigis_zero.Agent.Client.Calls.{
  Registering, enroll_with_secret, secret_metadata, Beats, heartbeat, token_metadata,
}
use aigis_zero.Agent.Config.{
  AgentConfig, raw_lines, strip_return, join, scan, edit, save_node_id_to_config,
}
use aigis_zero.Agent.Host.{
  Host, Directory, missing, get_os_version, read_machine_id, run_preflight, passes,
  check_dir_writable, installed,
}
use aigis_zero.Agent.Isolation.{v4}
use aigis_zero.Agent.Isolation.Endpoint.{parse_endpoint, matches_off}
use aigis_zero.Agent.Main.{
  go, exits, panics, Args, Outside, World, Running, join_fleet, main, heartbeat_tick,
}
use aigis_zero.Agent.Main.Ready.{IsReady, main-IsReady}
use aigis_zero.Prelude.{
  ℕ, ◌+◌, String, true, false, [], ◌∷◌, none, some, ok, err, ◌≡◌, refl, if◌then◌else◌, str_eq,
  strip_prefix, trim, trim_start_by, trim_end_by, split, to_string, decimal_from,
}
use native.Mathlib.Decide.{ℕ_discrete}

program : Unit {0}
unfolding main join_fleet connect connect_with_retry retry_loop enroll_with_secret secret_metadata
    raw_lines strip_return join scan edit save_node_id_to_config get_os_version read_machine_id
    run_preflight passes check_dir_writable installed parse_endpoint matches_off strip_prefix trim
    trim_start_by trim_end_by split to_string decimal_from ℕ_discrete heartbeat_tick heartbeat
    token_metadata
program = tt

abbrev config : AgentConfig
config = record {
  agent = record {
    node_id = none;
    name = "a";
    log_level = "info";
    log_format = "json";
    log_dir = "/l";
    data_dir = "/d";
    event_buffer_db = "/d/b";
    event_buffer_max = 10;
    event_drain_batch = 5;
    event_drain_interval_secs = 1;
    server = record { bind_addr = ""; port = 1 };
  };
  osquery = record {
    socket_path = "/o";
    conf_path = "";
    flags_path = "";
    pid_file = "";
    log_path = "";
    connect_timeout_secs = 1;
    query_timeout_secs = 1;
  };
  fleet = record {
    host = "h";
    port = 1;
    endpoint = "http://h:5";
    enrollment_secret = "s";
    tls_ca_cert = "";
    tls_client_cert = none;
    tls_client_key = none;
    heartbeat_interval_secs = 1;
    reconnect_interval_secs = 2;
    max_reconnect_attempts = 3;
  };
  isolation = record { enabled = false; fleet_ip = ""; fleet_port = 1 };
}

abbrev outside : Outside
outside = record {
  parse_config = λ text. ok config;
  parse_u64 = λ text. ok 1;
  parse_u16 = λ text. if str_eq text "5" then some 5 else none;
  parse_id = λ text. if str_eq text "seven" then ok 7 else err "no id";
  show_id = λ id. "seven";
  parse_ip = λ text. if str_eq text "h" then some (v4 9) else none;
  resolve = λ text. none;
  is_header = λ text. true;
  version = "1";
}

abbrev writable : Directory
writable = record { exists = true; create_dir_all = ok tt; write = ok tt }

abbrev host : Host
host = record {
  uid = 0;
  config_dir = writable;
  data_dir = writable;
  log_dir = writable;
  bpf_jit_enable = ok "1";
  max_user_watches = ok "1";
  which_osqueryd = true;
  opt_osqueryd = false;
  usr_osqueryd = false;
  which_nft = true;
  usr_nft = false;
  sbin_nft = false;
}

abbrev down : Dial
down = record { channel = err "refused"; stream = err "refused" }

abbrev up : Dial
up = record {
  channel = ok tt;
  stream = ok (record { messages = []; ended = false; closes_after = none });
}

abbrev world : World
world = record {
  uid = 0;
  config_text = ok "[agent]";
  host = host;
  init_tracing = λ level format. ok tt;
  open_buffer = λ path cap. ok (record { rows = []; last_id = 0; max_events = cap });
  hostname = ok "me";
  release = missing;
  etc_machine_id = ok "m";
  dbus_machine_id = err "none";
  first_dials = down ∷ up ∷ [];
  saved_text = ok "[agent]";
  save_error = none;
  second_dials = up ∷ [];
}

abbrev args : Args
args = record { config = "/c"; check = false; enroll = false }

-- The server counts the registrations.
abbrev register_agent : Registering ℕ
register_agent metadata req n = (n + 1, ok (record { node_id = "seven"; token = "t" }))

abbrev started : Running ℕ
started = record {
  fleet = record {
    endpoint = "http://h:5";
    client = some "http://h:5";
    outbound_tx = some (record { sent = []; closes_after = none });
    inbound_rx = some (record { queued = []; closed = false });
    node_id = some 7;
    token = some "t";
  };
  osquery = record { socket_path = "/o"; db_path = "/d/b" };
  buffer = record { rows = []; last_id = 0; max_events = 10 };
  isolation = record { fleet_ip = v4 9; fleet_port = 5 };
  node_id = 7;
  config = record config { agent = record config.agent { node_id = some 7 } };
  written = some "[agent]\nnode_id = \"seven\"";
  server = 1;
}

starts : main outside args world register_agent 0 ≡ go started
unfolding program
starts = refl

not_root : main outside args (record world { uid = 5 }) register_agent 0 ≡ exits 1
unfolding program
not_root = refl

checks : main outside (record args { check = true }) world register_agent 0 ≡ exits 0
unfolding program
checks = refl

-- The server's state is what it last heard.
abbrev beat : Beats String
beat metadata req s = (req.node_id, ok true)

ticks : heartbeat_tick outside.is_header outside.show_id beat 8 (ok 3) started.fleet "" ≡ "seven"
unfolding program
ticks = refl

main-IsReady_example : IsReady outside args world register_agent 0 started
main-IsReady_example = main-IsReady outside args world register_agent 0 started starts

-- The parser that reads an interval of 2^62 seconds.
abbrev patient : Outside
patient = record outside {
  parse_config = λ text. ok (record config {
    fleet = record config.fleet { reconnect_interval_secs = 4611686018427387904 };
  });
}

overflows :
    main patient args (record world { first_dials = down ∷ down ∷ up ∷ [] }) register_agent 0
    ≡ panics
unfolding program
overflows = refl
