-- ===== src/Agent/Main.antt =====
-- The start of the agent: main of agent/crates/agent-bin/src/main.rs up to its tasks, and the heartbeat
-- task. What the host, the files, the network and the fleet server answer are arguments; the TOML
-- parser and those of ids, numbers and addresses are parameters.
pub mod Boots
pub mod Ready
pub mod Panics
mod Tests
use aigis_zero.Agent.Buffer.{EventBuffer}
use aigis_zero.Agent.Client.{
  FleetClient, new, Dial, Retrying, trying, returned, overflowed, connect_with_retry,
}
use aigis_zero.Agent.Client.Calls.{
  RegisterRequest, RegisterResponse, HeartbeatRequest, Registering, Beats, enroll_with_secret,
  heartbeat,
}
use aigis_zero.Agent.Config.{AgentConfig, enrollment_secret_of, save_node_id_to_config}
use aigis_zero.Agent.Host.{
  Content, Host, PreflightReport, ReleaseFile, get_os_version, passes, read_machine_id,
  run_preflight,
}
use aigis_zero.Agent.Isolation.{IpAddr, IsolationManager}
use aigis_zero.Agent.Isolation.Endpoint.{parse_endpoint}
use aigis_zero.Engine.Models.{Uuid}
use aigis_zero.Prelude.{
  ℕ, ℤ, pos, negsuc, ◌+◌, ◌-◌, ◌^◌, String, Bool, true, false, not, ◌||◌, List, Option, none, some,
  Result, ok, err, map_err, if◌then◌else◌, ◌==◌, str_eq, ltb, ◌<>◌, wrap_i64,
}

-- What a part of `main` comes to: it goes on, ends the process with a code, returns an error,
-- panics, or waits for the fleet server.
pub data Boot {ℓ} (A : Type ℓ) : Type ℓ where
  go : A → Boot A
  exits : ℕ → Boot A
  fails : String → Boot A
  panics : Boot A
  waits : Boot A

infixl 5 ◌>>=◌ ◌>>◌
abbrev pub ◌>>=◌ {ℓ κ} : {A : Type ℓ} {B : Type κ} → Boot A → (A → Boot B) → Boot B
go a >>= f = f a
exits code >>= f = exits code
fails e >>= f = fails e
panics >>= f = panics
waits >>= f = waits

abbrev pub ◌>>◌ {ℓ} : {B : Type ℓ} → Boot (Unit {0}) → Boot B → Boot B
m >> k = m >>= λ u. k

-- `?`
abbrev pub try {ℓ} : {A : Type ℓ} → Result String A → Boot A
try (ok a) = go a
try (err e) = fails e

-- `expect`
abbrev pub expect {ℓ} : {A : Type ℓ} → Result String A → Boot A
expect (ok a) = go a
expect (err e) = panics

pub record Args : Type 0 where
  pub config : String
  pub check : Bool
  pub enroll : Bool

pub data LogFormat : Type 0 where
  json human : LogFormat

-- `OsqueryConfig`
pub record OsqueryConfig : Type 0 where
  pub socket_path : String
  pub db_path : String

-- What the start meets on the host and in the network.
pub record World : Type 0 where
  pub uid : ℕ
  pub config_text : Result String String
  pub host : Host
  pub init_tracing : String → LogFormat → Result String (Unit {0})
  pub open_buffer : String → ℕ → Result String EventBuffer
  pub hostname : Result String String
  pub release : ReleaseFile
  pub etc_machine_id : Content
  pub dbus_machine_id : Content
  pub first_dials : List Dial
  pub saved_text : Result String String
  pub save_error : Option String
  pub second_dials : List Dial

-- What the tasks of the agent start with, the text of the configuration where it was written again,
-- and the fleet server's state.
pub record Running {ℓ} (S : Type ℓ) : Type ℓ where
  pub fleet : FleetClient
  pub osquery : OsqueryConfig
  pub buffer : EventBuffer
  pub isolation : IsolationManager
  pub node_id : Uuid
  pub config : AgentConfig
  pub written : Option String
  pub server : S

abbrev pub log_format_of : String → LogFormat
log_format_of format = if str_eq format "json" then json else human

abbrev pub require_root : ℕ → Boot (Unit {0})
require_root uid = if uid == 0 then go tt else exits 1

-- The returned client of a connection.
abbrev pub connected_of : Result String (Unit {0}) → FleetClient → Boot FleetClient
connected_of (ok u) c = go c
connected_of (err e) c = fails e

abbrev pub connected : Retrying → Boot FleetClient
connected trying = waits
connected (returned r) = connected_of r.result r.client
connected overflowed = panics

abbrev pub enrolled {ℓ} :
    {S : Type ℓ}
    → S × (FleetClient × Result String RegisterResponse)
    → Boot (S × (FleetClient × RegisterResponse))
enrolled (s, (c, ok response)) = go (s, (c, response))
enrolled (s, (c, err e)) = fails e

abbrev pub has_id : Uuid → Option Uuid → Bool
has_id id none = false
has_id id (some old) = old == id

abbrev pub with_node_id : Uuid → AgentConfig → AgentConfig
with_node_id id config = record config { agent = record config.agent { node_id = some id } }

abbrev pub id_saved :
    Uuid
    → AgentConfig
    → Option String × Result String (Unit {0})
    → Boot (AgentConfig × Option String)
id_saved id config (written, ok u) = go (with_node_id id config, written)
id_saved id config (written, err e) = fails e

-- The flag `--check`: the report of the preflight decides the code.
abbrev pub check_only : Bool → PreflightReport → Boot (Unit {0})
check_only false report = go tt
check_only true report = exits (if passes report then 0 else 1)

-- The parsers and printers of libraries, name resolution, and the version of the package.
pub record Outside : Type 0 where
  pub parse_config : String → Result String AgentConfig
  pub parse_u64 : String → Result String ℕ
  pub parse_u16 : String → Option ℕ
  pub parse_id : String → Result String Uuid
  pub show_id : Uuid → String
  pub parse_ip : String → Option IpAddr
  pub resolve : String → Option IpAddr
  pub is_header : String → Bool
  pub version : String

module _ (o : Outside) where
  open o use {
    parse_config, parse_u64, parse_u16, parse_id, show_id, parse_ip, resolve, is_header, version,
  }

  abbrev pub read_config : Args → World → Boot AgentConfig
  read_config args w = do
    text ←
        try (
          map_err (λ e. "Failed to read config file at " <> args.config <> ": " <> e) w.config_text)
    try (map_err (λ e. "Failed to parse TOML config: " <> e) (parse_config text))

  -- Saving the id where it is new, or `--enroll` asks for it, and the configuration after it.
  abbrev pub keep_id : Args → World → Uuid → AgentConfig → Boot (AgentConfig × Option String)
  keep_id args w id config =
      if not (has_id id config.agent.node_id) || args.enroll
      then id_saved id config (save_node_id_to_config (show_id id) w.saved_text w.save_error)
      else go (config, none)

  abbrev pub connecting : AgentConfig → Option String → List Dial → FleetClient → Boot FleetClient
  connecting config token dials c = connected (
      connect_with_retry is_header config.fleet.max_reconnect_attempts
        config.fleet.reconnect_interval_secs token dials c)

  abbrev pub request_of : World → String → RegisterRequest
  request_of w hostname = record {
    hostname = hostname;
    os_version = get_os_version w.release;
    agent_version = version;
    machine_id = read_machine_id w.etc_machine_id w.dbus_machine_id;
  }

  abbrev pub isolation_of : AgentConfig → IsolationManager
  isolation_of config =
      let (ip, port) = parse_endpoint parse_u16 parse_ip resolve config.fleet.endpoint in
      record { fleet_ip = ip; fleet_port = port }

  -- From the enrolment to the tasks.
  unfoldable pub join_fleet {ℓ} :
      {S : Type ℓ} → Args → World → Registering S → S → AgentConfig → EventBuffer → Boot (Running S)
  join_fleet args w register_agent server config buffer = do
    c ← connecting config none w.first_dials (new config.fleet.endpoint)
    hostname ← try w.hostname
    (server', (c', response)) ← enrolled (
        enroll_with_secret parse_id is_header register_agent (request_of w hostname)
          (enrollment_secret_of config) c server)
    id ← expect (parse_id response.node_id)
    (config', written) ← keep_id args w id config
    c'' ← connecting config' (some response.token) w.second_dials c'
    go (record {
      fleet = c'';
      osquery = record {
        socket_path = config.osquery.socket_path;
        db_path = config.agent.event_buffer_db;
      };
      buffer = buffer;
      isolation = isolation_of config';
      node_id = id;
      config = config';
      written = written;
      server = server';
    })

  -- `main`, up to its tasks.
  unfoldable pub main {ℓ} : {S : Type ℓ} → Args → World → Registering S → S → Boot (Running S)
  main args w register_agent server = do
    require_root w.uid
    config ← read_config args w
    check_only args.check (run_preflight parse_u64 w.host)
    try (w.init_tracing config.agent.log_level (log_format_of config.agent.log_format))
    buffer ← try (w.open_buffer config.agent.event_buffer_db config.agent.event_buffer_max)
    join_fleet args w register_agent server config buffer

-- `len().await.unwrap_or(0) as i64`
abbrev pub buffered : Result String ℕ → ℤ
buffered (ok n) = wrap_i64 (pos n)
buffered (err e) = pos 0

-- One tick of the heartbeat task; a failure is only logged.
unfoldable pub heartbeat_tick {ℓ} :
    {S : Type ℓ}
    → (String → Bool)
    → (Uuid → String)
    → Beats S
    → Uuid
    → Result String ℕ
    → FleetClient
    → S
    → S
heartbeat_tick is_header show beat node_id len c server =
    let req : HeartbeatRequest = record {
      node_id = show node_id;
      status = "healthy";
      events_buffered = buffered len;
    } in
    (heartbeat is_header show beat req c server).0
