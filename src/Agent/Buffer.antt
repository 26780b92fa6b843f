-- ===== src/Agent/Buffer.antt =====
-- agent/crates/event-buffer/src/lib.rs: the SQLite table of events that wait for the fleet server.
-- A table is the list of its rows in the order of the primary key, which AUTOINCREMENT only ever
-- raises. Each statement may fail; SQLite then leaves the table as it was.
pub mod Rows
pub mod Queue
pub mod Refinement
mod Tests
use aigis_zero.Prelude.{
  ℕ, zero, suc, ◌+◌, ◌-◌, ◌^◌, String, Bool, true, false, ◌||◌, List, [], ◌∷◌, ◌++◌, map, Option,
  none, some, Result, ok, err, if◌then◌else◌, ltb, ◌==◌, length, take,
}

-- One row of `event_buffer`.
pub record Row : Type 0 where
  pub id : ℕ
  pub payload : String
  pub created_at : ℕ

-- The table, the last id that AUTOINCREMENT gave, and the cap.
pub record EventBuffer : Type 0 where
  pub rows : List Row
  pub last_id : ℕ
  pub max_events : ℕ

-- The statements of `push` that fail.
pub record PushFaults : Type 0 where
  pub insert : Bool
  pub count : Bool
  pub delete : Bool

-- `id IN (…)`
unfoldable pub is_in : List ℕ → ℕ → Bool
is_in [] id = false
is_in (i ∷ ids) id = i == id || is_in ids id

-- `DELETE FROM event_buffer WHERE id IN (…)`
unfoldable pub delete_ids : List ℕ → List Row → List Row
delete_ids ids [] = []
delete_ids ids (r ∷ rows) = if is_in ids r.id then delete_ids ids rows else r ∷ delete_ids ids rows

-- `SELECT id FROM event_buffer ORDER BY id ASC LIMIT n`
abbrev pub oldest_ids : ℕ → List Row → List ℕ
oldest_ids n rows = map (λ (r : Row). r.id) (take n rows)

-- `count > max_events as i64`, and then `count - max_events as i64`. The cast makes a cap of 2^63
-- or more negative: every count is above it, and the difference reaches past the whole table.
abbrev pub excess : ℕ → ℕ → Option ℕ
excess max_events count =
    if ltb max_events (2 ^ 63)
    then if ltb max_events count then some (count - max_events) else none
    else some (count + (2 ^ 64 - max_events))

abbrev pub stored : String → ℕ → EventBuffer → EventBuffer
stored event_json now b = record b {
  rows = b.rows ++ record { id = b.last_id + 1; payload = event_json; created_at = now } ∷ [];
  last_id = b.last_id + 1;
}

-- The eviction at the end of `push`.
unfoldable pub evict : Bool → EventBuffer → EventBuffer × Result String (Unit {0})
evict delete_fails b = elim (excess b.max_events (length b.rows)) [
  | none ↦ (b, ok tt)
  | some to_delete ↦
      if delete_fails
      then (b, err "delete")
      else (record b { rows = delete_ids (oldest_ids to_delete b.rows) b.rows }, ok tt)
]

-- `EventBuffer::push`
unfoldable pub push : PushFaults → ℕ → String → EventBuffer → EventBuffer × Result String (Unit {0})
push faults now event_json b =
    if faults.insert
    then (b, err "insert")
    else if faults.count
    then (stored event_json now b, err "count")
    else evict faults.delete (stored event_json now b)

-- `EventBuffer::drain`: the rows are read and deleted in one transaction, which a failure rolls
-- back. A limit that is no `i64` cannot be bound.
unfoldable pub drain : Bool → ℕ → EventBuffer → EventBuffer × Result String (List String)
drain fails batch_size b = if fails || ltb (2 ^ 63 - 1) batch_size then (b, err "drain") else (
  record b { rows = delete_ids (oldest_ids batch_size b.rows) b.rows },
  ok (map (λ (r : Row). r.payload) (take batch_size b.rows)),
)

-- `EventBuffer::len` and `is_empty`
abbrev pub len : EventBuffer → ℕ
len b = length b.rows

abbrev pub is_empty : EventBuffer → Bool
is_empty b = len b == 0
