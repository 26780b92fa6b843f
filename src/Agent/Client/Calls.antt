-- ===== src/Agent/Client/Calls.antt =====
-- The calls of the gRPC client of agent/crates/fleet-client/src/lib.rs: enrolment, heartbeats and the
-- reception of commands. The server is a function on its state.
use aigis_zero.Agent.Command.{Command}
use aigis_zero.Engine.Models.{Uuid}
use aigis_zero.Fleet.Gateway.{MetadataMap}
use aigis_zero.Prelude.{
  String, Bool, true, false, List, [], ◌∷◌, Option, none, some, Result, ok, err, ℤ, if◌then◌else◌,
  ◌<>◌,
}
use aigis_zero.Agent.Client.{FleetClient, Inbound, bearer_value}

pub record RegisterRequest : Type 0 where
  pub hostname : String
  pub os_version : String
  pub agent_version : String
  pub machine_id : String

pub record RegisterResponse : Type 0 where
  pub node_id : String
  pub token : String

-- The server's answer to a registration, on the server's state.
abbrev pub Registering {ℓ} : Type ℓ → Type ℓ
Registering S = MetadataMap → RegisterRequest → S → S × Result String RegisterResponse

-- The metadata of a registration: a secret that cannot be a header's value is left out.
unfoldable pub secret_metadata : (String → Bool) → Option String → MetadataMap
secret_metadata is_header none = []
secret_metadata is_header (some sec) =
    if is_header sec then ("x-enrollment-secret", some sec) ∷ [] else []

module _ (parse : String → Result String Uuid) where
  abbrev pub identified :
      FleetClient
      → RegisterResponse
      → Result String Uuid
      → FleetClient × Result String RegisterResponse
  identified c response (err e) =
      (c, err ("Fleet server returned malformed node_id '" <> response.node_id <> "': " <> e))
  identified c response (ok id) =
      (record c { node_id = some id; token = some response.token }, ok response)

  abbrev pub answered :
      FleetClient → Result String RegisterResponse → FleetClient × Result String RegisterResponse
  answered c (err e) = (c, err e)
  answered c (ok response) = identified c response (parse response.node_id)

  abbrev pub enroll_over {ℓ} :
      {S : Type ℓ}
      → Registering S
      → Option String
      → MetadataMap
      → RegisterRequest
      → FleetClient
      → S
      → S × (FleetClient × Result String RegisterResponse)
  enroll_over register_agent none metadata request c s = (s, (c, err "Not connected"))
  enroll_over register_agent (some client) metadata request c s =
      let (s', response) = register_agent metadata request s in (s', answered c response)

  -- `FleetClient::enroll_with_secret`
  unfoldable pub enroll_with_secret {ℓ} :
      {S : Type ℓ}
      → (String → Bool)
      → Registering S
      → RegisterRequest
      → Option String
      → FleetClient
      → S
      → S × (FleetClient × Result String RegisterResponse)
  enroll_with_secret is_header register_agent request secret c s =
      enroll_over register_agent c.client (secret_metadata is_header secret) request c s

-- A heartbeat as the agent's loop makes it, and as the client sends it.
pub record HeartbeatRequest : Type 0 where
  pub node_id : String
  pub status : String
  pub events_buffered : ℤ

abbrev pub Beats {ℓ} : Type ℓ → Type ℓ
Beats S = MetadataMap → HeartbeatRequest → S → S × Result String Bool

abbrev pub id_text : (Uuid → String) → Option Uuid → String
id_text show none = ""
id_text show (some id) = show id

-- The metadata of a heartbeat, or the error of a token that cannot be a header's value.
unfoldable pub token_metadata : (String → Bool) → Option String → Result String MetadataMap
token_metadata is_header none = ok []
token_metadata is_header (some t) =
    if is_header (bearer_value t)
    then ok (("authorization", some (bearer_value t)) ∷ [])
    else err "failed to parse metadata value"

abbrev pub beat_with {ℓ} :
    {S : Type ℓ}
    → Beats S
    → HeartbeatRequest
    → Result String MetadataMap
    → S
    → S × Result String Bool
beat_with beat req (err e) s = (s, err e)
beat_with beat req (ok metadata) s = beat metadata req s

abbrev pub beat_over {ℓ} :
    {S : Type ℓ}
    → Beats S
    → HeartbeatRequest
    → Option String
    → Result String MetadataMap
    → S
    → S × Result String Bool
beat_over beat req none metadata s = (s, err "Not connected")
beat_over beat req (some client) metadata s = beat_with beat req metadata s

-- `FleetClient::heartbeat`: the node's id is the client's, not the request's.
unfoldable pub heartbeat {ℓ} :
    {S : Type ℓ}
    → (String → Bool)
    → (Uuid → String)
    → Beats S
    → HeartbeatRequest
    → FleetClient
    → S
    → S × Result String Bool
heartbeat is_header show beat request c s =
    beat_over beat (record request { node_id = id_text show c.node_id }) c.client
      (token_metadata is_header c.token) s

abbrev pub received :
    List (Option Command) → Bool → Inbound × Result String (Option (Option Command))
received [] true =
    (record { queued = []; closed = true }, err "Inbound channel closed (server disconnected)")
received [] false = (record { queued = []; closed = false }, ok none)
received (m ∷ ms) c = (record { queued = ms; closed = c }, ok (some m))

abbrev pub try_receive_from :
    Option Inbound → FleetClient → FleetClient × Result String (Option (Option Command))
try_receive_from none c = (c, err "Not connected")
try_receive_from (some rx) c =
    let (rx', r) = received rx.queued rx.closed in (record c { inbound_rx = some rx' }, r)

-- `FleetClient::try_receive`
unfoldable pub try_receive : FleetClient → FleetClient × Result String (Option (Option Command))
try_receive c = try_receive_from c.inbound_rx c

-- What a waiting receiver gets: what was queued, else what arrives next, and nothing from a channel
-- whose sender is gone.
abbrev pub awaited :
    Option (Option Command) → List (Option Command) → Bool → Inbound × Option (Option Command)
awaited arriving (m ∷ ms) c = (record { queued = ms; closed = c }, some m)
awaited arriving [] true = (record { queued = []; closed = true }, none)
awaited (some m) [] false = (record { queued = []; closed = false }, some m)
awaited none [] false = (record { queued = []; closed = true }, none)

abbrev pub receive_from :
    Option (Option Command)
    → Option Inbound
    → FleetClient
    → FleetClient × Result String (Option (Option Command))
receive_from arriving none c = (c, err "Not connected")
receive_from arriving (some rx) c =
    let (rx', m) = awaited arriving rx.queued rx.closed in
    (record c { inbound_rx = some rx' }, ok m)

-- `FleetClient::receive`, for what arrives while it waits: a command, or the end of the sender.
unfoldable pub receive :
    Option (Option Command) → FleetClient → FleetClient × Result String (Option (Option Command))
receive arriving c = receive_from arriving c.inbound_rx c

-- `FleetClient::enroll`
abbrev pub enroll {ℓ} :
    {S : Type ℓ}
    → (String → Result String Uuid)
    → (String → Bool)
    → Registering S
    → RegisterRequest
    → FleetClient
    → S
    → S × (FleetClient × Result String RegisterResponse)
enroll parse is_header register_agent request c s =
    enroll_with_secret parse is_header register_agent request none c s
