-- ===== src/Agent/Client/Session.antt =====
-- An agent's session with the fleet server: the client's calls against the handlers of
-- fleet-server/crates/grpc-listener/src/service.rs.
use aigis_zero.Agent.Client.{FleetClient, bearer_value}
use aigis_zero.Agent.Client.Calls.{
  RegisterRequest, RegisterResponse, HeartbeatRequest, Registering, Beats, enroll_with_secret,
  secret_metadata, heartbeat, token_metadata,
}
use aigis_zero.Engine.Models.{Uuid, DateTime}
use aigis_zero.Fleet.Access.{Decodes, validate_token-sign_token}
use aigis_zero.Fleet.Database.{Db, update_nodes, select_node_id, has_node}
use aigis_zero.Fleet.Enrollment.{
  NodeRecord, Stamp, NodeClaims, Status, unauthenticated, internal, RegistrationResult, sign_token,
  token_ttl_secs, register_agent,
}
use aigis_zero.Fleet.Gateway.{
  MetadataMap, Enrolling, Config, admits, provided_secret, register, Beating, validate_token,
}
use aigis_zero.Fleet.Gateway
use aigis_zero.Fleet.Known.{calm, Knows, upsert_node-Knows}
use aigis_zero.Fleet.Health.{
  AgentHeartbeat, record_heartbeat, store_heartbeat, stamped, heartbeat_tx, health_row, sanitize,
  set_agent_status,
}
use aigis_zero.Prelude.{
  ℕ, ◌+◌, ◌-◌, ◌^◌, ◌<◌, String, Bool, true, false, List, [], ◌∷◌, ◌++◌, Option, none, some, Result,
  ok, err, ◌≡◌, refl, inl, inr, Bool-cases, str_eq, str_eq_refl, lookup,
}

abbrev pub status_text : Status → String
status_text (unauthenticated m) = m
status_text (internal m) = m

-- `AgentRegistration { … }` of the handler
abbrev pub record_of : RegisterRequest → NodeRecord
record_of req = record {
  hostname = req.hostname;
  os_version = req.os_version;
  agent_version = req.agent_version;
  machine_id = req.machine_id;
}

abbrev pub response_of : Result Status RegistrationResult → Result String RegisterResponse
response_of (ok r) = ok (record { node_id = r.node_id; token = r.token })
response_of (err e) = err (status_text e)

-- `AgentHeartbeat { … }` of the handler
abbrev pub beat_of : HeartbeatRequest → AgentHeartbeat
beat_of req = record {
  node_id = req.node_id;
  status = req.status;
  events_buffered = req.events_buffered;
}

abbrev pub beaten : Result Status (Unit {0}) → Result String Bool
beaten (ok u) = ok true
beaten (err e) = err (status_text e)

module _ (encode : NodeClaims → List ℕ → Result String String)
    (decode : List ℕ → ℕ → String → Result String NodeClaims) (show : Uuid → String)
    (parse : String → Result String Uuid) (config : Config) where
  -- The server's end of a registration.
  unfoldable pub registering : Enrolling → Registering Db
  registering e metadata req db =
      let (db', r) = register encode show config metadata e (record_of req) db in
      (db', response_of r)

  -- The server's end of a heartbeat, at a time in seconds.
  unfoldable pub beating : ℕ → Beating → Beats Db
  beating now b metadata req db =
      let (db', r) =
        Gateway.heartbeat (decode config.jwt_secret now) parse metadata b (beat_of req) db in
      (db', beaten r)

-- What a registration meets when nothing fails: the new ids and the clock in seconds.
abbrev pub enrolling_at : Stamp → ℕ → Enrolling
enrolling_at stamp issued = record { out = calm; stamp = stamp; now = some issued }

-- Whether the secret, if there is one, can be sent.
abbrev pub IsSendable : (String → Bool) → Option String → Type 0
IsSendable is_header none = Unit
IsSendable is_header (some secret) = is_header secret ≡ true

admits-secret_metadata :
    (is_header : String → Bool) (secret : Option String)
    → IsSendable is_header secret
    → admits secret (secret_metadata is_header secret) ≡ true
unfolding admits secret_metadata provided_secret lookup
admits-secret_metadata is_header none h = refl
admits-secret_metadata is_header (some secret) h = elim (Bool-cases (str_eq secret "")) [
  | inl e ↦ rw e refl
  | inr e ↦ rw (e, h, str_eq_refl secret) refl
]

-- The client after its enrolment under the id, with the token.
abbrev pub enrolled_as : FleetClient → Uuid → String → FleetClient
enrolled_as c id t = record c { node_id = some id; token = some t }

-- What a heartbeat of the node leaves: the sanitized status in its row, and a row of history.
abbrev pub beaten_by : (Uuid → String) → Uuid → Uuid → DateTime → HeartbeatRequest → Db → Db
beaten_by show id health_id at req db = record db {
  nodes = update_nodes (set_agent_status (sanitize req.status)) id db.nodes;
  node_health =
      db.node_health
      ++ health_row health_id id (stamped at (beat_of (record req { node_id = show id }))) ∷ [];
}

module _ (encode : NodeClaims → List ℕ → Result String String)
    (decode : List ℕ → ℕ → String → Result String NodeClaims)
    (decode-encode : Decodes encode decode) (show : Uuid → String)
    (parse : String → Result String Uuid) (parse-show : (id : Uuid) → parse (show id) ≡ ok id)
    (is_header : String → Bool) (config : Config) where
  -- Signing succeeds, with a token that a header can hold.
  abbrev pub Signs : ℕ → Type 0
  Signs issued =
      (id : Uuid)
      → (t : String) × (sign_token encode (some issued) (show id) config.jwt_secret ≡ ok t)
        × (is_header (bearer_value t) ≡ true)

  -- A connected client with the server's secret enrols, when nothing fails.
  enroll_with_secret-Knows :
      (ch : String) (c : FleetClient) (req : RegisterRequest) (stamp : Stamp) (issued : ℕ) (db : Db)
      → c.client ≡ some ch
      → IsSendable is_header config.enrollment_secret
      → Signs issued
      → has_node stamp.node_id db.nodes ≡ false
      → (id : Uuid) × (t : String) × (db' : Db) × (enroll_with_secret parse is_header
            (registering encode decode show parse config (enrolling_at stamp issued))
            req
            config.enrollment_secret
            c
            db
          ≡ (db', (enrolled_as c id t, ok (record { node_id = show id; token = t }))))
        × Knows req.machine_id id db'.nodes
        × (db'.node_health ≡ db.node_health)
        × (sign_token encode (some issued) (show id) config.jwt_secret ≡ ok t)
        × (is_header (bearer_value t) ≡ true)
  unfolding enroll_with_secret registering register register_agent
  enroll_with_secret-Knows ch c req stamp issued db on sendable signs fresh =
      let (id, db', up, known, health) = upsert_node-Knows stamp (record_of req) db fresh in
      let (t, signed, fits) = signs id in
      (
        id,
        t,
        db',
        rw
            (
              on,
              admits-secret_metadata is_header config.enrollment_secret sendable,
              up,
              signed,
              parse-show id,
            )
            refl,
        known,
        health,
        signed,
        fits,
      )

  heartbeat-enrolled :
      (ch : String) (c : FleetClient) (id : Uuid) (t : String) (issued now : ℕ) (health_id : Uuid)
      (at : DateTime) (req : HeartbeatRequest) (db : Db)
      → c.client ≡ some ch
      → sign_token encode (some issued) (show id) config.jwt_secret ≡ ok t
      → is_header (bearer_value t) ≡ true
      → now < issued + token_ttl_secs
      → now < 2 ^ 64 - 1
      → has_node id db.nodes ≡ true
      → heartbeat is_header show
          (beating encode decode show parse config now
            (record { out = calm; health_id = health_id; now = at }))
          req
          (enrolled_as c id t)
          db
        ≡ (beaten_by show id health_id at req db, ok true)
  unfolding heartbeat beating Gateway.heartbeat token_metadata record_heartbeat store_heartbeat
      heartbeat_tx
  heartbeat-enrolled ch c id t issued now health_id at req db on signed fits soon low has =
      let accepted =
        validate_token-sign_token encode decode decode-encode (show id) t config.jwt_secret issued
          now signed soon low in
      rw (on, fits, accepted, parse-show id, has) refl

  -- An agent and a fleet server with the same enrolment secret, when nothing fails: a connected
  -- client enrols, and holds the id under which the server's table knows its machine. Its heartbeat
  -- less than 24 hours later, over the client's own token, is accepted, sets the sanitized status of
  -- that node, and adds a row to the history under that node's id, whatever id the request names.
  pub session_lem :
      (ch : String) (c : FleetClient) (req : RegisterRequest) (stamp : Stamp) (issued now : ℕ)
      (health_id : Uuid) (at : DateTime) (hb : HeartbeatRequest) (db : Db)
      → c.client ≡ some ch
      → IsSendable is_header config.enrollment_secret
      → Signs issued
      → has_node stamp.node_id db.nodes ≡ false
      → now < issued + token_ttl_secs
      → now < 2 ^ 64 - 1
      → (id : Uuid) × (t : String) × (db' : Db) × (enroll_with_secret parse is_header
            (registering encode decode show parse config (enrolling_at stamp issued))
            req
            config.enrollment_secret
            c
            db
          ≡ (db', (enrolled_as c id t, ok (record { node_id = show id; token = t }))))
        × (select_node_id req.machine_id db'.nodes ≡ some id)
        × (heartbeat is_header show
              (beating encode decode show parse config now
                (record { out = calm; health_id = health_id; now = at }))
              hb
              (enrolled_as c id t)
              db'
            ≡ (beaten_by show id health_id at hb db', ok true))
  session_lem ch c req stamp issued now health_id at hb db on sendable signs fresh soon low =
      let (id, t, db', done, known, health, signed, fits) =
        enroll_with_secret-Knows ch c req stamp issued db on sendable signs fresh in
      (
        id,
        t,
        db',
        done,
        known.0,
        heartbeat-enrolled ch c id t issued now health_id at hb db' on signed fits soon low known.1,
      )
