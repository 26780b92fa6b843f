-- ===== src/Fleet/Gateway.antt =====
-- The gRPC boundary: fleet-server/crates/grpc-listener/src/auth.rs, and `register_agent` and
-- `heartbeat` of service.rs. The JWT library's `decode` is a parameter, at the time of the call.
use aigis_zero.Engine.Models.{Uuid, DateTime}
use aigis_zero.Fleet.Database.{Db, Outages}
use aigis_zero.Fleet.Enrollment.{
  NodeRecord, Stamp, NodeClaims, Status, unauthenticated, RegistrationResult, register_agent,
}
use aigis_zero.Fleet.Health.{AgentHeartbeat, record_heartbeat}
use aigis_zero.Prelude.{
  ℕ, String, Bool, true, false, List, Option, none, some, and_then, or_else, Result, ok, err,
  map_err, if◌then◌else◌, str_eq, strip_prefix, lookup,
}

-- `MetadataMap`: of each value what `to_str` gives, which fails on bytes that are no visible ASCII.
abbrev pub MetadataMap : Type 0
MetadataMap = List (String × Option String)

abbrev pub get_str : String → MetadataMap → Option String
get_str key metadata = and_then (lookup key metadata) (λ (v : Option String). v)

module _ (decode : String → Result String NodeClaims) where
  abbrev pub decoded : Option String → Result Status NodeClaims
  decoded none = err (unauthenticated "authorization header must use Bearer scheme")
  decoded (some token) =
      map_err (λ (e : String). unauthenticated "invalid or expired token") (decode token)

  abbrev pub bearer : Option (Option String) → Result Status NodeClaims
  bearer none = err (unauthenticated "missing authorization header")
  bearer (some none) = err (unauthenticated "authorization header is not valid utf-8")
  bearer (some (some header_str)) = decoded (strip_prefix "Bearer " header_str)

  -- `validate_token`
  unfoldable pub validate_token : MetadataMap → Result Status NodeClaims
  validate_token metadata = bearer (lookup "authorization" metadata)

-- The secret that a registration request carries.
unfoldable pub provided_secret : MetadataMap → Option String
provided_secret metadata =
    or_else (get_str "x-enrollment-secret" metadata)
      (and_then (get_str "authorization" metadata) (strip_prefix "Bearer "))

abbrev pub matches : Option String → String → Bool
matches none expected = false
matches (some secret) expected = str_eq secret expected

-- The check of the enrolment secret; a missing or empty one asks for nothing.
unfoldable pub admits : Option String → MetadataMap → Bool
admits none metadata = true
admits (some expected) metadata =
    if str_eq expected "" then true else matches (provided_secret metadata) expected

-- What an enrolment brings along: the stamp, the clock, and the faults.
pub record Enrolling : Type 0 where
  pub out : Outages
  pub stamp : Stamp
  pub now : Option ℕ

-- `FleetServiceImpl`, the part that the registration reads.
pub record Config : Type 0 where
  pub enrollment_secret : Option String
  pub jwt_secret : List ℕ

module _ (encode : NodeClaims → List ℕ → Result String String) (show : Uuid → String) where
  -- `FleetServiceImpl::register_agent`
  unfoldable pub register :
      Config → MetadataMap → Enrolling → NodeRecord → Db → Db × Result Status RegistrationResult
  register config metadata e r db =
      if admits config.enrollment_secret metadata
      then register_agent encode show config.jwt_secret e.out e.stamp e.now r db
      else (db, err (unauthenticated "invalid or missing enrollment secret"))

pub record Beating : Type 0 where
  pub out : Outages
  pub health_id : Uuid
  pub now : DateTime

module _ (decode : String → Result String NodeClaims) (parse : String → Result String Uuid) where
  abbrev pub heartbeat_with :
      Result Status NodeClaims → Beating → AgentHeartbeat → Db → Db × Result Status (Unit {0})
  heartbeat_with (err e) b hb db = (db, err e)
  heartbeat_with (ok claims) b hb db = record_heartbeat parse b.out b.health_id b.now hb db

  -- `FleetServiceImpl::heartbeat`, which drops the claims.
  unfoldable pub heartbeat :
      MetadataMap → Beating → AgentHeartbeat → Db → Db × Result Status (Unit {0})
  heartbeat metadata b hb db = heartbeat_with (validate_token decode metadata) b hb db
