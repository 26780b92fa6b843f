-- ===== src/Agent/Isolation/Tests.antt =====
-- The rule set of a server, and the answers of nft.
use native.Mathlib.Decide.{ℕ_discrete}
use aigis_zero.Agent.Command.{isolate, handle}
use aigis_zero.Agent.Isolation.{v4, Exit, IpAddr, de_isolate, is_isolated, met}
use aigis_zero.Agent.Isolation
use aigis_zero.Agent.Isolation.Endpoint.{localhost, matches_off, parse_endpoint}
use aigis_zero.Prelude.{
  ℕ, String, Option, none, some, true, false, ok, err, ◌≡◌, refl, if◌then◌else◌, str_eq, split,
  contains, to_string, decimal_from, strip_prefix, trim_start_by, trim_end_by,
}

program : Unit {0}
unfolding contains de_isolate is_isolated Isolation.isolate handle strip_prefix ℕ_discrete
    parse_endpoint matches_off split to_string decimal_from trim_start_by trim_end_by
program = tt

abbrev plain : String → String
plain s = s

abbrev refused : Exit
refused = record { success = false; stderr = "Error: could not process rule: denied" }

-- A refusal of the kernel counts as success.
excused_refusal : de_isolate plain (ok refused) ≡ ok tt
unfolding program
excused_refusal = refl

-- And so the server is told that the host is free.
unisolated :
    handle (met plain (ok tt) (ok tt) (ok refused) (ok refused)) (some (isolate false))
    ≡ ok "unisolated"
unfolding program
unisolated = refl

-- An isolation that nft refuses is an error.
not_isolated :
    handle (met plain (ok tt) (ok tt) (ok refused) (ok refused)) (some (isolate true))
    ≡ err "nft failed to apply rules: Error: could not process rule: denied"
unfolding program
not_isolated = refl

abbrev ports : String → Option ℕ
ports s = if str_eq s "443" then some 443 else none

abbrev no_address : String → Option IpAddr
no_address s = none

abbrev names : String → Option IpAddr
names s = if str_eq s "fleet.lan:443" then some (v4 7) else none

-- The host of a URL with a scheme, a port and a path.
plain_endpoint : parse_endpoint ports no_address names "https://fleet.lan:443/grpc" ≡ (v4 7, 443)
unfolding program
plain_endpoint = refl

-- An IPv6 address is cut at its first colon, and the agent itself takes its place.
ipv6_endpoint : parse_endpoint ports no_address names "http://[::1]:443" ≡ (localhost, 50051)
unfolding program
ipv6_endpoint = refl
