-- ===== src/Agent/Isolation/Endpoint.antt =====
-- Which server an isolated host still reaches: parse_endpoint of agent/crates/agent-bin/src/main.rs.
-- The parsers of numbers and addresses, and the resolution of names, are parameters.
use Prim.Native.Nat.{◌-◌}
use aigis_zero.Agent.Isolation.{IpAddr, v4}
use aigis_zero.Prelude.{
  ℕ, zero, suc, ◌+◌, String, List, [], ◌∷◌, Option, none, some, ◌==◌, if◌then◌else◌, is_some,
  unwrap_or, strip_prefix, trim_start_by, trim_end_by, split, to_string, and_then, ◌<>◌,
}

abbrev pub chars : String → ℕ
chars String.[] = 0
chars (String.◌∷◌ c s) = chars s + 1

-- What is left of a text after its first characters, and after whole prefixes behind these.
unfoldable pub matches_off : String → ℕ → String → String
matches_off p n String.[] = String.[]
matches_off p (suc n) (String.◌∷◌ c s) = matches_off p n s
matches_off p zero (String.◌∷◌ c s) =
    let rest = matches_off p (chars p - 1) s in
    if is_some (strip_prefix p (String.◌∷◌ c s)) then rest else String.◌∷◌ c s

-- `str::trim_start_matches` for a prefix that is not empty.
abbrev pub trim_start_matches : String → String → String
trim_start_matches p s = matches_off p zero s

abbrev pub first : List String → Option String
first [] = none
first (s ∷ ss) = some s

abbrev pub second : List String → Option String
second [] = none
second (s ∷ ss) = first ss

abbrev pub or_else : Option IpAddr → Option IpAddr → Option IpAddr
or_else none b = b
or_else (some a) b = some a

abbrev pub unbracketed : String → String
unbracketed host = trim_end_by (λ c. c == b']') (trim_start_by (λ c. c == b'[') host)

-- 127.0.0.1
abbrev pub localhost : IpAddr
localhost = v4 0x7f000001

module _ (parse_u16 : String → Option ℕ) (parse_ip resolve : String → Option IpAddr) where
  -- The address of a host: read, else resolved with the port, else this host.
  abbrev pub address : String → ℕ → IpAddr
  address host port =
      unwrap_or (or_else (parse_ip (unbracketed host)) (resolve (host <> ":" <> to_string port)))
        localhost

  abbrev pub of_parts : List String → IpAddr × ℕ
  of_parts parts =
      let host = unwrap_or (first parts) "127.0.0.1" in
      let port = unwrap_or (and_then (second parts) parse_u16) 50051 in (address host port, port)

  -- `parse_endpoint`
  unfoldable pub parse_endpoint : String → IpAddr × ℕ
  parse_endpoint endpoint =
      let clean = trim_start_matches "https://" (trim_start_matches "http://" endpoint) in
      let host_port = unwrap_or (first (split b'/' clean)) clean in of_parts (split b':' host_port)
