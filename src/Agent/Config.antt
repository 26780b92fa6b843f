-- ===== src/Agent/Config.antt =====
-- The agent's configuration: the sections of agent/crates/agent-core/src/config.rs, and
-- `save_node_id_to_config` of agent/crates/agent-bin/src/main.rs. Reading the
-- file, the parsing of addresses and numbers, and name resolution are arguments or parameters.
pub mod Editing
mod Tests
use Prim.Native.Char.{Char, code}
use Prim.Native.String
use aigis_zero.Engine.Models.{Uuid}
use aigis_zero.Prelude.{
  ℕ, String, Bool, true, false, not, ◌&&◌, List, [], ◌∷◌, ◌++◌, map, Option, none, some, Result, ok,
  err, if◌then◌else◌, ◌==◌, is_some, str_eq, strip_prefix, trim, trim_start_by, trim_end_by,
  unwrap_or, or_else, and_then, to_string,
}

pub record AgentServerSection : Type 0 where
  pub bind_addr : String
  pub port : ℕ

pub record AgentSection : Type 0 where
  pub node_id : Option Uuid
  pub name : String
  pub log_level : String
  pub log_format : String
  pub log_dir : String
  pub data_dir : String
  pub event_buffer_db : String
  pub event_buffer_max : ℕ
  pub event_drain_batch : ℕ
  pub event_drain_interval_secs : ℕ
  pub server : AgentServerSection

pub record OsquerySection : Type 0 where
  pub socket_path : String
  pub conf_path : String
  pub flags_path : String
  pub pid_file : String
  pub log_path : String
  pub connect_timeout_secs : ℕ
  pub query_timeout_secs : ℕ

pub record FleetSection : Type 0 where
  pub host : String
  pub port : ℕ
  pub endpoint : String
  pub enrollment_secret : String
  pub tls_ca_cert : String
  pub tls_client_cert : Option String
  pub tls_client_key : Option String
  pub heartbeat_interval_secs : ℕ
  pub reconnect_interval_secs : ℕ
  pub max_reconnect_attempts : ℕ

pub record IsolationSection : Type 0 where
  pub enabled : Bool
  pub fleet_ip : String
  pub fleet_port : ℕ

pub record AgentConfig : Type 0 where
  pub agent : AgentSection
  pub osquery : OsquerySection
  pub fleet : FleetSection
  pub isolation : IsolationSection

-- The enrolment secret that `main` sends: an empty one is none.
abbrev pub enrollment_secret_of : AgentConfig → Option String
enrollment_secret_of config =
    if str_eq config.fleet.enrollment_secret "" then none else some config.fleet.enrollment_secret

-- A line of a text, and whether a line feed ends it.
abbrev pub RawLine : Type 0
RawLine = String × Bool

abbrev pub put : Char → List RawLine → List RawLine
put c [] = (String.◌∷◌ c String.[], false) ∷ []
put c ((l, ended) ∷ ls) = (String.◌∷◌ c l, ended) ∷ ls

unfoldable pub raw_lines : String → List RawLine
raw_lines String.[] = []
raw_lines (String.◌∷◌ c s) =
    let rest = raw_lines s in if code c == 10 then (String.[], true) ∷ rest else put c rest

-- A carriage return at the end goes.
abbrev pub keep_unless : Bool → String → String → String
keep_unless drops String.[] s = if drops then String.[] else s
keep_unless drops (String.◌∷◌ d rest) s = s

unfoldable pub strip_return : String → String
strip_return String.[] = String.[]
strip_return (String.◌∷◌ c s) = keep_unless (code c == 13) s (String.◌∷◌ c (strip_return s))

abbrev pub ended_line : RawLine → String
ended_line (l, true) = strip_return l
ended_line (l, false) = l

-- `str::lines`
abbrev pub lines : String → List String
lines content = map ended_line (raw_lines content)

-- `join("\n")`
unfoldable pub join : List String → String
join [] = String.[]
join (l ∷ []) = l
join (l ∷ m ∷ ls) = String.◌++◌ l (String.◌++◌ "\n" (join (m ∷ ls)))

abbrev pub starts_with : String → String → Bool
starts_with prefix s = is_some (strip_prefix prefix s)

-- The lines after the loop, and its flags.
pub record Scan : Type 0 where
  pub lines : List String
  pub in_agent : Bool
  pub inserted : Bool

abbrev pub after : String → Scan → Scan
after l s = record s { lines = l ∷ s.lines }

abbrev pub node_id_line : String → String
node_id_line id = String.◌++◌ "node_id = \"" (String.◌++◌ id "\"")

-- The loop over the lines, from a value of `in_agent`.
unfoldable pub scan : String → Bool → List String → Scan
scan id in_agent [] = record { lines = []; in_agent = in_agent; inserted = false }
scan id in_agent (l ∷ ls) =
    let inside = scan id true ls in
    let on = scan id in_agent ls in
    if str_eq (trim l) "[agent]"
    then after l inside
    else if in_agent && starts_with "node_id" l
    then record { lines = node_id_line id ∷ ls; in_agent = true; inserted = true }
    else if in_agent && starts_with "[" l
    then record { lines = node_id_line id ∷ l ∷ ls; in_agent = true; inserted = true }
    else after l on

-- The line at the end, if the section was the last one.
abbrev pub finish : String → Scan → List String
finish id s = if s.in_agent && not s.inserted then s.lines ++ node_id_line id ∷ [] else s.lines

unfoldable pub edit : String → List String → List String
edit id ls = finish id (scan id false ls)

-- The text that is written back.
abbrev pub saved :
    String → Result String String → Option String → Option String × Result String (Unit {0})
saved id (err e) write = (none, err e)
saved id (ok content) (some e) = (none, err e)
saved id (ok content) none = (some (join (edit id (lines content))), ok tt)

-- `save_node_id_to_config`: what is written, and the result, for the file's content and the error of
-- the write.
unfoldable pub save_node_id_to_config :
    String → Result String String → Option String → Option String × Result String (Unit {0})
save_node_id_to_config id read write = saved id read write
