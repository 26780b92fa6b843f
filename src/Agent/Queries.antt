-- ===== src/Agent/Queries.antt =====
-- The table of scheduled queries in agent/crates/osquery-client/src/scheduler.rs: the seeding of
-- `new`, `load_queries` and `upsert_queries`. A `u64` that is no `i64` cannot be bound to a
-- statement; other failures are arguments.
pub mod Upsert
mod Tests
use aigis_zero.Prelude.{
  ℕ, zero, suc, ◌^◌, String, Bool, true, false, not, ◌&&◌, ◌||◌, List, [], ◌∷◌, ◌++◌, map, Option,
  none, some, Result, ok, err, take, if◌then◌else◌, ltb, str_eq,
}

pub record ScheduledQuery : Type 0 where
  pub name : String
  pub query : String
  pub interval_secs : ℕ
  pub snapshot : Bool

-- A row of `scheduled_queries`, whose primary key is the name.
pub record QueryRow : Type 0 where
  pub query : ScheduledQuery
  pub updated_at : ℕ

abbrev pub defaults : List ScheduledQuery
defaults =
    record {
      name = "running_processes";
      query = "SELECT pid, name, path, cmdline, uid FROM processes;";
      interval_secs = 30;
      snapshot = false;
    }
    ∷ record {
      name = "listening_ports";
      query = "SELECT pid, port, protocol, address FROM listening_ports;";
      interval_secs = 30;
      snapshot = false;
    }
    ∷ record {
      name = "users";
      query = "SELECT username, uid, gid, shell, directory FROM users;";
      interval_secs = 300;
      snapshot = false;
    }
    ∷ []

abbrev pub row_at : ℕ → ScheduledQuery → QueryRow
row_at now q = record { query = q; updated_at = now }

-- The seeding of `new` on the table that it opens, over how many inserts then succeed, if not all.
-- They stand in no transaction.
unfoldable pub seed : Option ℕ → ℕ → List QueryRow → List QueryRow × Result String (Unit {0})
seed fails now (r ∷ table) = (r ∷ table, ok tt)
seed none now [] = (map (row_at now) defaults, ok tt)
seed (some k) now [] = (map (row_at now) (take k defaults), err "insert")

-- `load_queries`
abbrev pub load_queries : List QueryRow → List ScheduledQuery
load_queries table = map (λ (r : QueryRow). r.query) table

-- `INSERT … ON CONFLICT(name) DO UPDATE`
unfoldable pub upsert_query : ℕ → ScheduledQuery → List QueryRow → List QueryRow
upsert_query now q [] = row_at now q ∷ []
upsert_query now q (r ∷ table) =
    let rest = upsert_query now q table in
    if str_eq r.query.name q.name then row_at now q ∷ table else r ∷ rest

-- The statements of the loop, until one fails.
unfoldable pub upsert_loop :
    (ScheduledQuery → Bool)
    → ℕ
    → List ScheduledQuery
    → List QueryRow
    → Result String (List QueryRow)
upsert_loop fails now [] table = ok table
upsert_loop fails now (q ∷ queries) table =
    let rest = upsert_loop fails now queries (upsert_query now q table) in
    if fails q || not (ltb q.interval_secs (2 ^ 63)) then err "upsert" else rest

-- The end of the transaction.
abbrev pub commit :
    Bool → List QueryRow → Result String (List QueryRow) → List QueryRow × Result String (Unit {0})
commit fails table (err e) = (table, err e)
commit fails table (ok table') = if fails then (table, err "commit") else (table', ok tt)

-- `upsert_queries`
unfoldable pub upsert_queries :
    (ScheduledQuery → Bool)
    → Bool
    → ℕ
    → List ScheduledQuery
    → List QueryRow
    → List QueryRow × Result String (Unit {0})
upsert_queries fails commit_fails now queries table =
    commit commit_fails table (upsert_loop fails now queries table)
