-- ===== src/Agent/Client/Tests.antt =====
-- The client's theorems at dials that fail twice, and at a session with an empty server.
use aigis_zero.Agent.Client.{
  FleetClient, new, Dial, Retried, returned, connect, connect_with_retry, retry_loop,
}
use aigis_zero.Agent.Client.Calls.{
  RegisterRequest, HeartbeatRequest, enroll_with_secret, heartbeat, try_receive, receive, enroll,
  Registering,
}
use aigis_zero.Agent.Client.Attempts.{failures}
use aigis_zero.Agent.Client.Retries.{
  sleeps, connect_with_retry-returns, connect_with_retry-connects,
}
use aigis_zero.Agent.Client.Session.{
  registering, beating, enrolling_at, beaten_by, enrolled_as, session_lem,
}
use aigis_zero.Fleet.Access.{Decodes}
use aigis_zero.Fleet.Database.{Db, select_node_id, has_node}
use aigis_zero.Fleet.Enrollment.{NodeClaims, Stamp, sign_token}
use aigis_zero.Fleet.Gateway.{Config}
use aigis_zero.Fleet.Known.{calm}
use aigis_zero.Prelude.{
  ℕ, zero, suc, ◌-◌, min, ltb, String, Bool, true, false, List, [], ◌∷◌, none, some, Result, ok,
  err, is_ok, ◌≡◌, refl, ap, arith, pos, if◌then◌else◌, ◌==◌, ==_iff, Bool-cases, inl, inr,
}

program : Unit {0}
unfolding connect connect_with_retry retry_loop has_node sign_token try_receive receive
    enroll_with_secret
program = tt

abbrev down : Dial
down = record { channel = err "refused"; stream = err "refused" }

abbrev up : Dial
up = record {
  channel = ok tt;
  stream = ok (record { messages = none ∷ []; ended = false; closes_after = none });
}

abbrev visible : String → Bool
visible s = true

abbrev dials : List Dial
dials = down ∷ down ∷ up ∷ []

-- A connection without a token has no stream: nothing can be received over it.
no_stream :
    (try_receive (connect visible up none (new "http://h")).0).1
    ≡ err "Inbound channel closed (server disconnected)"
unfolding program
no_stream = refl

-- A command that arrives while the receiver waits.
waits : (receive (some none) (connect visible up (some "t") (new "http://h")).0).1 ≡ ok (some none)
unfolding program
waits = refl

-- Ids as so many strokes.
abbrev show : ℕ → String
show zero = ""
show (suc n) = String.◌∷◌ "x" (show n)

abbrev strokes : String → ℕ
strokes String.[] = 0
strokes (String.◌∷◌ c s) = suc (strokes s)

abbrev parse : String → Result String ℕ
parse s = ok (strokes s)

abbrev host : RegisterRequest
host = record { hostname = "h"; os_version = "o"; agent_version = "a"; machine_id = "m" }

-- A server that answers every registration.
abbrev anyone : Registering (Unit {0})
anyone metadata request s = (s, ok (record { node_id = "x"; token = "t" }))

-- A client that was never connected cannot enrol.
not_connected : (enroll parse visible anyone host (new "http://h") tt).1.1 ≡ err "Not connected"
unfolding program
not_connected = refl

connect_with_retry-returns_example :
    (r : Retried) × (connect_with_retry visible 2 1000 (some "t") dials (new "http://h")
      ≡ returned r)
    × (is_ok r.result ≡ ltb (failures visible (some "t") dials) 2)
    × (r.delays ≡ sleeps 1000 1 (min (failures visible (some "t") dials) (2 - 1)))
unfolding program
connect_with_retry-returns_example =
    connect_with_retry-returns visible 2 1000 (some "t") (omega arith) dials (new "http://h")
      (omega arith) (omega arith) (omega arith)

connect_with_retry-connects_example :
    (r : Retried) × (connect_with_retry visible 0 1000 (some "t") dials (new "http://h")
      ≡ returned r)
    × (is_ok r.result ≡ true)
    × (r.delays ≡ sleeps 1000 1 (failures visible (some "t") dials))
unfolding program
connect_with_retry-connects_example =
    connect_with_retry-connects visible 1000 (some "t") dials (new "http://h") (omega arith)
      (omega arith) (omega arith)

strokes-show : (n : ℕ) → strokes (show n) ≡ n
strokes-show zero = refl
strokes-show (suc n) = ap suc (strokes-show n)

-- A JWT library that signs the claims of one second, with the id as the token.
abbrev encode : NodeClaims → List ℕ → Result String String
encode c secret = if c.exp == 87400 then ok c.node_id else err "unknown"

abbrev decode : List ℕ → ℕ → String → Result String NodeClaims
decode secret now token = ok (record { node_id = token; exp = 87400 })

ok_injective : (a b : String) → ◌≡◌ {A = Result String String} (ok a) (ok b) → a ≡ b
ok_injective a b h = ground arith

claims_eta : (c : NodeClaims) → c ≡ record { node_id = c.node_id; exp = c.exp }
claims_eta c = refl

decode-encode : Decodes encode decode
decode-encode c secret token now h soon = elim (Bool-cases (c.exp == 87400)) [
  | inr e ↦ let h' = rw e at h in cc
  | inl e ↦
      let exp = (==_iff c.exp 87400).0 e in
      let same = ok_injective c.node_id token (rw e at h) in ground arith
]

abbrev config : Config
config = record { enrollment_secret = some "s"; jwt_secret = 1 ∷ [] }

abbrev empty : Db
empty = record { nodes = []; node_health = []; enrollment_events = [] }

abbrev stamp : Stamp
stamp = record { node_id = 7; event_id = 8; now = 100 }

abbrev connected : FleetClient
connected = record (new "http://h") { client = some "http://h" }

abbrev beat : HeartbeatRequest
beat = record { node_id = "other"; status = "isolated"; events_buffered = pos 3 }

session_lem_example :
    (id : ℕ) × (t : String) × (db' : Db) × (enroll_with_secret parse visible
        (registering encode decode show parse config (enrolling_at stamp 1000))
        host
        (some "s")
        connected
        empty
      ≡ (db', (enrolled_as connected id t, ok (record { node_id = show id; token = t }))))
    × (select_node_id "m" db'.nodes ≡ some id)
    × (heartbeat visible show
          (beating encode decode show parse config 2000
            (record { out = calm; health_id = 9; now = 200 }))
          beat
          (enrolled_as connected id t)
          db'
        ≡ (beaten_by show id 9 200 beat db', ok true))
unfolding program
session_lem_example =
    session_lem encode decode decode-encode show parse (λ n. ap ok (strokes-show n)) visible config
      "http://h" connected host stamp 1000 2000 9 200 beat empty refl refl
      (λ n. (show n, refl, refl)) refl (omega arith) (omega arith)
