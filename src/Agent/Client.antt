-- ===== src/Agent/Client.antt =====
-- The connections of the gRPC client of agent/crates/fleet-client/src/lib.rs; its calls are in Calls.
-- What the network answers is an argument; which texts may be a header's value is a parameter.
pub mod Attempts
pub mod Retries
pub mod Calls
pub mod Session
mod Tests
use Prim.Native.String
use aigis_zero.Agent.Command.{Command}
use aigis_zero.Agent.Drain.{Outbound}
use aigis_zero.Engine.Models.{Uuid}
use aigis_zero.Fleet.Gateway.{MetadataMap}
use aigis_zero.Prelude.{
  ℕ, ◌+◌, ◌*◌, ◌^◌, ◌%◌, min, String, Bool, true, false, ◌&&◌, List, [], ◌∷◌, ◌++◌, Option, none,
  some, Result, ok, err, ℤ, if◌then◌else◌, ltb, leb,
}

-- The receiving half of the inbound channel: what waits in it, and whether its sender is gone.
pub record Inbound : Type 0 where
  pub queued : List (Option Command)
  pub closed : Bool

-- A channel to a server is known by the endpoint that it was dialled at.
pub record FleetClient : Type 0 where
  pub endpoint : String
  pub client : Option String
  pub outbound_tx : Option Outbound
  pub inbound_rx : Option Inbound
  pub node_id : Option Uuid
  pub token : Option String

-- `FleetClient::new`
abbrev pub new : String → FleetClient
new endpoint = record {
  endpoint = endpoint;
  client = none;
  outbound_tx = none;
  inbound_rx = none;
  node_id = none;
  token = none;
}

-- An open event stream: what the server has sent, whether it has ended, and after how many events
-- it takes no more.
pub record Stream : Type 0 where
  pub messages : List (Option Command)
  pub ended : Bool
  pub closes_after : Option ℕ

-- What one call of `connect` meets: the dialling of the endpoint, and the opening of the stream.
pub record Dial : Type 0 where
  pub channel : Result String (Unit {0})
  pub stream : Result String Stream

-- The channels of a connection without a stream: their other ends are dropped.
abbrev pub unattached : FleetClient → FleetClient
unattached c = record c {
  outbound_tx = some (record { sent = []; closes_after = some 0 });
  inbound_rx = some (record { queued = []; closed = true });
}

-- The channels of a connection with a stream, which forwards the server's commands.
abbrev pub attached : FleetClient → Stream → FleetClient
attached c s = record c {
  outbound_tx = some (record { sent = []; closes_after = s.closes_after });
  inbound_rx = some (record { queued = s.messages; closed = s.ended });
}

abbrev pub bearer_value : String → String
bearer_value token = String.◌++◌ "Bearer " token

-- What `connect_with_retry` returns, with the client and the sleeps that it took.
pub record Retried : Type 0 where
  pub client : FleetClient
  pub result : Result String (Unit {0})
  pub delays : List ℕ

-- Where `connect_with_retry` is: it goes on trying, it has returned, or the product of a delay has
-- overflowed, which panics.
pub data Retrying : Type 0 where
  trying : Retrying
  returned : Retried → Retrying
  overflowed : Retrying

-- A delay in seconds, as the product would be without a bound.
abbrev pub delay : ℕ → ℕ → ℕ
delay base_delay attempt = base_delay * 2 ^ min attempt 5

-- The seconds of a `Duration` have 64 bits.
abbrev pub retried :
    ℕ → ℕ → ℕ → List ℕ → FleetClient → Result String (Unit {0}) → Retrying → Retrying
retried max_attempts attempt wait delays c (ok u) rest =
    returned (record { client = c; result = ok tt; delays = delays })
retried max_attempts attempt wait delays c (err e) rest =
    if ltb 0 max_attempts && leb max_attempts attempt
    then returned (record { client = c; result = err e; delays = delays })
    else if ltb wait (2 ^ 64)
    then rest
    else overflowed

module _ (is_header : String → Bool) where
  abbrev pub with_stream :
      FleetClient → Result String Stream → FleetClient × Result String (Unit {0})
  with_stream c (err e) = (c, err e)
  with_stream c (ok s) = (attached c s, ok tt)

  abbrev pub streaming :
      Result String Stream → Option String → FleetClient → FleetClient × Result String (Unit {0})
  streaming stream none c = (unattached c, ok tt)
  streaming stream (some t) c =
      if is_header (bearer_value t)
      then with_stream c stream
      else (c, err "failed to parse metadata value")

  abbrev pub dialled :
      Dial
      → Option String
      → FleetClient
      → Result String (Unit {0})
      → FleetClient × Result String (Unit {0})
  dialled dial token c (err e) = (c, err e)
  dialled dial token c (ok u) =
      streaming dial.stream token (record c { client = some c.endpoint; token = token })

  -- `FleetClient::connect`
  unfoldable pub connect :
      Dial → Option String → FleetClient → FleetClient × Result String (Unit {0})
  connect dial token c = dialled dial token c dial.channel

  -- The loop, from a number of attempts made, over what its further attempts meet.
  unfoldable pub retry_loop :
      ℕ → ℕ → Option String → List Dial → ℕ → List ℕ → FleetClient → Retrying
  retry_loop max_attempts base_delay token [] attempt delays c = trying
  retry_loop max_attempts base_delay token (d ∷ ds) attempt delays c =
      let n = (attempt + 1) % 2 ^ 32 in
      let (c', r) = connect d token c in
      retried max_attempts n (delay base_delay n) delays c' r
        (retry_loop max_attempts base_delay token ds n (delays ++ delay base_delay n ∷ []) c')

  -- `FleetClient::connect_with_retry`, for a base delay in seconds.
  unfoldable pub connect_with_retry : ℕ → ℕ → Option String → List Dial → FleetClient → Retrying
  connect_with_retry max_attempts base_delay token ds c =
      retry_loop max_attempts base_delay token ds 0 [] c
