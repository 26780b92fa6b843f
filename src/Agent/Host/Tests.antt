-- ===== src/Agent/Host/Tests.antt =====
-- A host's files, and a report with one failure.
use native.Mathlib.Decide.{ℕ_discrete}
use aigis_zero.Agent.Host.{
  read_machine_id, split_at_equals, read_line, read_lines, get_os_version, opened, Directory, Host,
  check_dir_writable, installed, run_preflight, passes,
}
use aigis_zero.Prelude.{
  String, true, false, List, [], ◌∷◌, map, ok, err, ◌≡◌, refl, strip_prefix, trim, trim_start_by,
  trim_end_by,
}

program : Unit {0}
unfolding read_machine_id split_at_equals read_line read_lines get_os_version check_dir_writable
    installed run_preflight passes strip_prefix trim trim_start_by trim_end_by ℕ_discrete
program = tt

abbrev release : List String
release = "# os" ∷ "NAME=\"Debian\"" ∷ " VERSION = 12 " ∷ "NAME=Devuan" ∷ []

devuan : get_os_version (opened (map (λ (l : String). ok l) release)) ≡ "Devuan 12"
unfolding program
devuan = refl

-- An empty first file leaves the second.
second_id : read_machine_id (ok " \n") (ok "abc\n") ≡ "abc"
unfolding program
second_id = refl

abbrev there : Directory
there = record { exists = true; create_dir_all = ok tt; write = ok tt }

abbrev host : Host
host = record {
  uid = 0;
  config_dir = there;
  data_dir = there;
  log_dir = there;
  bpf_jit_enable = err "missing";
  max_user_watches = ok "8192\n";
  which_osqueryd = false;
  opt_osqueryd = true;
  usr_osqueryd = false;
  which_nft = true;
  usr_nft = false;
  sbin_nft = false;
}

-- The kernel's settings only warn.
warned : passes (run_preflight (λ s. ok 8192) host) ≡ true
unfolding program
warned = refl

-- A host without nft does not pass.
without_nft : passes (run_preflight (λ s. ok 8192) (record host { which_nft = false })) ≡ false
unfolding program
without_nft = refl
