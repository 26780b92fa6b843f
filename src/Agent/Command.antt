-- ===== src/Agent/Command.antt =====
-- The command listener of agent/crates/agent-core/src/lib.rs, with command_handler.rs. The
-- outcomes of the isolation manager, of polls and of reconnections are arguments.
mod Tests
pub mod Backoff
use aigis_zero.Prelude.{
  ℕ, zero, suc, ◌+◌, ◌-◌, ◌*◌, ◌^◌, min, String, Bool, true, false, List, [], ◌∷◌, ◌++◌, Option,
  none, some, Result, ok, err, if◌then◌else◌,
}

abbrev pub cmd_max_backoff_errors : ℕ
cmd_max_backoff_errors = 8

abbrev pub cmd_backoff_base_ms : ℕ
cmd_backoff_base_ms = 50

abbrev pub cmd_backoff_ceiling_ms : ℕ
cmd_backoff_ceiling_ms = 12800

abbrev pub cmd_poll_interval_ms : ℕ
cmd_poll_interval_ms = 5

-- `server_command::Command`, as far as the handler reads it.
pub data Command : Type 0 where
  isolate : Bool → Command
  config_update : Command
  ack : String → Command

-- What `nft` answers to an isolation and to its end.
pub record Isolation : Type 0 where
  pub isolating : Result String (Unit {0})
  pub de_isolating : Result String (Unit {0})

abbrev pub status_of : String → Result String (Unit {0}) → Result String String
status_of status (ok u) = ok status
status_of status (err e) = err e

-- `CommandHandler::handle`, with the status of its JSON answer.
unfoldable pub handle : Isolation → Option Command → Result String String
handle i none = err "missing command"
handle i (some (isolate true)) = status_of "isolated" i.isolating
handle i (some (isolate false)) = status_of "unisolated" i.de_isolating
handle i (some config_update) = ok "config_updated"
handle i (some (ack id)) = ok "acked"

-- `saturating_add(1)` on a `u32`
abbrev pub saturating_suc : ℕ → ℕ
saturating_suc n = min (n + 1) (2 ^ 32 - 1)

-- The delay after the given number of consecutive errors.
abbrev pub backoff_ms : ℕ → ℕ
backoff_ms consecutive_errors =
    min (cmd_backoff_base_ms * 2 ^ min consecutive_errors cmd_max_backoff_errors)
      cmd_backoff_ceiling_ms

-- A round: an empty channel, a message, or an error with the outcome of the reconnection.
pub data Round : Type 0 where
  empty : Round
  received : Option Command → Round
  transport_error : Bool → Round

-- The error counter, the commands handled, and the sleeps taken after errors.
pub record Listener : Type 0 where
  pub consecutive_errors : ℕ
  pub handled : List (Result String String)
  pub backoffs : List ℕ

unfoldable pub round : Isolation → Round → Listener → Listener
round i empty s = record s { consecutive_errors = 0 }
round i (received msg) s = record s {
  consecutive_errors = 0;
  handled = s.handled ++ handle i msg ∷ [];
}
round i (transport_error reconnects) s =
    let errors = saturating_suc s.consecutive_errors in
    record s {
      consecutive_errors = if reconnects then 0 else errors;
      backoffs = s.backoffs ++ backoff_ms errors ∷ [];
    }

-- The loop, until the shutdown.
unfoldable pub listen : Isolation → List Round → Listener → Listener
listen i [] s = s
listen i (r ∷ rounds) s = listen i rounds (round i r s)
