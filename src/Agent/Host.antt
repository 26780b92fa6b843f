-- ===== src/Agent/Host.antt =====
-- What the agent reads from its host: `get_os_version`, `read_machine_id` and `hostname_or_default`
-- of agent/crates/agent-core/src/orchestrator.rs, and agent/crates/agent-core/src/preflight.rs. The
-- contents of files and the answers of commands are arguments.
pub mod Versions
mod Tests
use Prim.Native.Char.{code}
use Prim.Native.String
use aigis_zero.Prelude.{
  ℕ, String, Bool, true, false, not, ◌&&◌, ◌||◌, List, [], ◌∷◌, Option, none, some, Result, ok, err,
  is_ok, map_err, and_then, if◌then◌else◌, ◌==◌, unwrap_or, is_some, str_eq, strip_prefix, trim,
  trim_start_by, trim_end_by,
}

-- What reading a file as text gives.
abbrev pub Content : Type 0
Content = Result String String

-- The trimmed text, unless it is empty.
abbrev pub not_empty : String → Option String
not_empty s = if str_eq s "" then none else some s

abbrev pub trimmed : Content → Option String
trimmed (err e) = none
trimmed (ok id) = not_empty (trim id)

-- `read_machine_id`, for the contents of its two files.
unfoldable pub read_machine_id : Content → Content → String
read_machine_id etc dbus = elim (trimmed etc) [
  | some id ↦ id
  | none ↦ unwrap_or (trimmed dbus) "unknown-machine-id"
]

-- `hostname_or_default`, for a name that may be missing or no Unicode.
abbrev pub hostname_or_default : Option (Option String) → String
hostname_or_default name = unwrap_or (and_then name (λ (n : Option String). n)) "unknown-host"

-- The variables of the loop over the lines of os-release.
pub record Release : Type 0 where
  pub name : Option String
  pub version : Option String
  pub pretty_name : Option String

-- The text before the first "=", and the text after it.
unfoldable pub split_at_equals : String → Option (String × String)
split_at_equals String.[] = none
split_at_equals (String.◌∷◌ c s) =
    let rest =
      and_then (split_at_equals s) (λ (p : String × String). some (String.◌∷◌ c p.0, p.1)) in
    if code c == 61 then some (String.[], s) else rest

abbrev pub is_quote : ℕ → Bool
is_quote c = c == 34

-- `trim_matches('"')`
abbrev pub unquote : String → String
unquote s = trim_end_by is_quote (trim_start_by is_quote s)

abbrev pub set : String → String → Release → Release
set key val r =
    if str_eq key "PRETTY_NAME"
    then record r { pretty_name = some val }
    else if str_eq key "NAME"
    then record r { name = some val }
    else if str_eq key "VERSION"
    then record r { version = some val }
    else r

abbrev pub assign : Option (String × String) → Release → Release
assign none r = r
assign (some (key, val)) r = set (trim key) (unquote (trim val)) r

-- One line of the file: a comment or an empty line is passed over.
unfoldable pub read_line : String → Release → Release
read_line line r =
    let l = trim line in
    if is_some (strip_prefix "#" l) || str_eq l "" then r else assign (split_at_equals l) r

-- The lines up to the first that cannot be read.
unfoldable pub read_lines : List Content → Release → Release
read_lines [] r = r
read_lines (err e ∷ ls) r = r
read_lines (ok l ∷ ls) r = read_lines ls (read_line l r)

abbrev pub with_version : String → Option String → String
with_version os_name none = os_name
with_version os_name (some ver) = String.◌++◌ os_name (String.◌++◌ " " ver)

abbrev pub os_name_of : Release → String
os_name_of r = elim r.pretty_name [
  | some pretty ↦ pretty
  | none ↦ with_version (unwrap_or r.name "Linux") r.version
]

abbrev pub nothing_read : Release
nothing_read = record { name = none; version = none; pretty_name = none }

-- The file: missing, not to be opened, or its lines.
pub data ReleaseFile : Type 0 where
  missing unopened : ReleaseFile
  opened : List Content → ReleaseFile

-- `get_os_version`
unfoldable pub get_os_version : ReleaseFile → String
get_os_version missing = "Unknown Linux (os-release not found)"
get_os_version unopened = "Unknown Linux (unable to open os-release)"
get_os_version (opened ls) = os_name_of (read_lines ls nothing_read)

pub record PreflightReport : Type 0 where
  pub config_dir_writable : Result String (Unit {0})
  pub data_dir_writable : Result String (Unit {0})
  pub log_dir_writable : Result String (Unit {0})
  pub bpf_jit_enabled : Result String Bool
  pub inotify_watches : Result String ℕ
  pub osqueryd_installed : Result String String
  pub nft_installed : Result String String
  pub is_root : Bool

-- `PreflightReport::is_ok`
unfoldable pub passes : PreflightReport → Bool
passes r =
    is_ok r.config_dir_writable
    && (is_ok r.data_dir_writable
        && (is_ok r.log_dir_writable
            && (is_ok r.osqueryd_installed && (is_ok r.nft_installed && r.is_root))))

-- What the check of a directory meets: whether it is there, its creation, and the write of a file.
pub record Directory : Type 0 where
  pub exists : Bool
  pub create_dir_all : Result String (Unit {0})
  pub write : Result String (Unit {0})

abbrev pub written : Result String (Unit {0}) → Result String (Unit {0})
written (ok u) = ok tt
written (err e) = err (String.◌++◌ "Not writable: " e)

abbrev pub created : Result String (Unit {0}) → Result String (Unit {0}) → Result String (Unit {0})
created (err e) write = err (String.◌++◌ "Directory does not exist and failed to create: " e)
created (ok u) write = written write

-- `check_dir_writable`
unfoldable pub check_dir_writable : Directory → Result String (Unit {0})
check_dir_writable d = if d.exists then written d.write else created d.create_dir_all d.write

-- An executable in the path, or at the first of some places.
unfoldable pub installed : Bool → List (String × Bool) → String → Result String String
installed true places missing_text = ok "Found in PATH"
installed false [] missing_text = err missing_text
installed false ((place, exists) ∷ places) missing_text =
    if exists then ok place else installed false places missing_text

-- What the host answers to the checks.
pub record Host : Type 0 where
  pub uid : ℕ
  pub config_dir : Directory
  pub data_dir : Directory
  pub log_dir : Directory
  pub bpf_jit_enable : Content
  pub max_user_watches : Content
  pub which_osqueryd : Bool
  pub opt_osqueryd : Bool
  pub usr_osqueryd : Bool
  pub which_nft : Bool
  pub usr_nft : Bool
  pub sbin_nft : Bool

abbrev pub is_one : Content → Result String Bool
is_one (ok s) = ok (str_eq (trim s) "1")
is_one (err e) = err (String.◌++◌ "Failed to read bpf_jit_enable: " e)

module _ (parse_u64 : String → Result String ℕ) where
  abbrev pub watches : Content → Result String ℕ
  watches (err e) = err (String.◌++◌ "Failed to read max_user_watches: " e)
  watches (ok s) = map_err (λ e. String.◌++◌ "Failed to parse integer: " e) (parse_u64 (trim s))

  -- `run_preflight`
  unfoldable pub run_preflight : Host → PreflightReport
  run_preflight h = record {
    config_dir_writable = check_dir_writable h.config_dir;
    data_dir_writable = check_dir_writable h.data_dir;
    log_dir_writable = check_dir_writable h.log_dir;
    bpf_jit_enabled = is_one h.bpf_jit_enable;
    inotify_watches = watches h.max_user_watches;
    osqueryd_installed =
        installed h.which_osqueryd
          (("/opt/osquery/bin/osqueryd", h.opt_osqueryd)
            ∷ ("/usr/bin/osqueryd", h.usr_osqueryd)
            ∷ [])
          "osqueryd executable not found (osquery package is required)";
    nft_installed =
        installed h.which_nft (("/usr/sbin/nft", h.usr_nft) ∷ ("/sbin/nft", h.sbin_nft) ∷ [])
          "nft executable not found (nftables is required for isolation)";
    is_root = h.uid == 0;
  }
