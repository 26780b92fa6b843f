-- ===== src/Agent/Isolation.antt =====
-- Network isolation by nftables: agent/crates/isolation/src/lib.rs, and how the command handler of
-- the agent meets it. What `nft` answers is an argument; the text of an address, the lossy reading
-- of bytes and the lower case of a text are parameters. The text of an error is that of its context.
pub mod Endpoint
mod Tests
use Prim.Native.Char.{code}
use Prim.Native.String
use aigis_zero.Agent.Command.{Isolation}
use aigis_zero.Prelude.{
  ℕ, String, Bool, true, false, not, ◌&&◌, ◌||◌, Result, ok, err, if◌then◌else◌, is_some, contains,
  to_string, ◌<>◌,
}

pub data IpAddr : Type 0 where
  v4 v6 : ℕ → IpAddr

pub record IsolationManager : Type 0 where
  pub fleet_ip : IpAddr
  pub fleet_port : ℕ

abbrev pub ip_family : IpAddr → String
ip_family (v4 n) = "ip"
ip_family (v6 n) = "ip6"

-- What the end of an `nft` process gives: no process or no output, or its exit and its errors.
pub record Exit : Type 0 where
  pub success : Bool
  pub stderr : String

abbrev pub Answer : Type 0
Answer = Result String Exit

module _ (show_ip : IpAddr → String) where
  -- One rule line for the fleet server.
  abbrev pub fleet_rule : String → String → IsolationManager → String
  fleet_rule addr port m =
      "        "
      <> ip_family m.fleet_ip
      <> addr
      <> show_ip m.fleet_ip
      <> port
      <> to_string m.fleet_port
      <> " accept\n"

  -- The rule set that `isolate` writes to nft.
  unfoldable pub rule_set : IsolationManager → String
  rule_set m =
      "table inet aigis_isolation {\n"
      <> "    chain input {\n"
      <> "        type filter hook input priority -100; policy drop;\n"
      <> "        ct state established,related accept\n"
      <> "        iif lo accept\n"
      <> fleet_rule " saddr " " tcp sport " m
      <> "    }\n"
      <> "    chain output {\n"
      <> "        type filter hook output priority -100; policy drop;\n"
      <> "        ct state established,related accept\n"
      <> "        oif lo accept\n"
      <> fleet_rule " daddr " " tcp dport " m
      <> "    }\n"
      <> "    chain forward {\n"
      <> "        type filter hook forward priority -100; policy drop;\n"
      <> "    }\n"
      <> "}"

abbrev pub applied : Answer → Result String (Unit {0})
applied (err e) = err "Failed to wait for nft output"
applied (ok exit) =
    if exit.success then ok tt else err ("nft failed to apply rules: " <> exit.stderr)

abbrev pub written : Result String (Unit {0}) → Answer → Result String (Unit {0})
written (err e) answer = err "Failed to write ruleset to nft stdin"
written (ok u) answer = applied answer

-- `isolate`, for the start of the process, the write of the rule set, and the answer.
unfoldable pub isolate :
    Result String (Unit {0}) → Result String (Unit {0}) → Answer → Result String (Unit {0})
isolate (err e) write answer = err "Failed to spawn nft process"
isolate (ok u) write answer = written write answer

module _ (to_lowercase : String → String) where
  -- The errors that `de_isolate` takes for a missing table.
  abbrev pub excused : String → Bool
  excused stderr =
      contains "no such file or directory" (to_lowercase stderr)
      || contains "does not exist" (to_lowercase stderr)
      || contains "could not process rule" (to_lowercase stderr)

  -- `de_isolate`
  unfoldable pub de_isolate : Answer → Result String (Unit {0})
  de_isolate (err e) = err "Failed to execute nft command"
  de_isolate (ok exit) =
      if exit.success || excused exit.stderr
      then ok tt
      else err ("nft delete table failed: " <> exit.stderr)

  -- What the command handler meets, for the answers of nft to both.
  abbrev pub met : Result String (Unit {0}) → Result String (Unit {0}) → Answer → Answer → Isolation
  met spawn write added deleted = record {
    isolating = isolate spawn write added;
    de_isolating = de_isolate deleted;
  }

-- `is_isolated`
unfoldable pub is_isolated : Answer → Result String Bool
is_isolated (err e) = err "Failed to execute nft command"
is_isolated (ok exit) = ok exit.success
