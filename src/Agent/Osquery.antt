-- ===== src/Agent/Osquery.antt =====
-- Scheduled queries: agent/crates/osquery-client/src/diff.rs, and the task of one query of
-- scheduler.rs. A row is a map of texts, of which only Rust's equality is used, a parameter. The
-- iteration order of a `HashSet`, arbitrary in Rust, is the order of first insertion here.
pub mod Replay
mod Tests
use aigis_zero.Prelude.{
  ℕ, zero, suc, ℤ, pos, negsuc, String, Bool, true, false, not, ◌||◌, List, [], ◌∷◌, ◌++◌, Option,
  none, some, if◌then◌else◌, ◌==◌,
}

pub data ResultAction : Type 0 where
  snapshot added removed : ResultAction

unfoldable pub as_str : ResultAction → String
as_str snapshot = "SNAPSHOT"
as_str added = "ADDED"
as_str removed = "REMOVED"

module _ {Row : Type 0} (same : Row → Row → Bool) where
  -- `HashSet::contains`
  unfoldable pub contains : Row → List Row → Bool
  contains r [] = false
  contains r (x ∷ xs) = same x r || contains r xs

  -- A loop of `HashSet::insert`.
  unfoldable pub insert_all : List Row → List Row → List Row
  insert_all [] set = set
  insert_all (r ∷ rows) set = insert_all rows (if contains r set then set else set ++ r ∷ [])

  -- `a.difference(&b)`
  unfoldable pub difference : List Row → List Row → List Row
  difference [] b = []
  difference (r ∷ a) b = let rest = difference a b in if contains r b then rest else r ∷ rest

  -- `compute_diff`: the rows that are new, and those that are gone.
  unfoldable pub compute_diff : List Row → List Row → List Row × List Row
  compute_diff previous_rows current_rows =
      let prev_set = insert_all previous_rows [] in
      let curr_set = insert_all current_rows [] in
      (difference curr_set prev_set, difference prev_set curr_set)

-- An `OsqueryResult` of the task, with its rows before `build_result` lists their columns.
pub record QueryResult (Row : Type 0) : Type 0 where
  pub action : ResultAction
  pub rows : List Row

-- The answer of `client.query`: a transport error, or a status code with rows.
pub data Answer (Row : Type 0) : Type 0 where
  failed : Answer Row
  response : ℤ → List Row → Answer Row

-- The variables of the task, the results that its channel took, and after how many more the
-- channel's receiver is gone.
pub record Task (Row : Type 0) : Type 0 where
  pub previous_rows : List Row
  pub first_run : Bool
  pub sent : List (QueryResult Row)
  pub closes_after : Option ℕ

module _ {Row : Type 0} (same : Row → Row → Bool) where
  abbrev pub send_with : Option ℕ → QueryResult Row → Task Row → Task Row × Bool
  send_with none r t = (record t { sent = t.sent ++ r ∷ [] }, true)
  send_with (some zero) r t = (t, false)
  send_with (some (suc k)) r t = (record t { sent = t.sent ++ r ∷ []; closes_after = some k }, true)

  -- `tx.send(result).await`, and whether the channel was open.
  abbrev pub send : ResultAction → List Row → Task Row → Task Row × Bool
  send action rows t = send_with t.closes_after (record { action = action; rows = rows }) t

  -- A difference is sent if it has rows.
  abbrev pub send_some : ResultAction → List Row → Task Row → Task Row × Bool
  send_some action [] t = (t, true)
  send_some action (r ∷ rows) t = send action (r ∷ rows) t

  -- `previous_rows = current_rows` at the end of a round that did not stop.
  abbrev pub keep : List Row → Task Row × Bool → Task Row × Bool
  keep current (t, true) = (record t { previous_rows = current; first_run = false }, true)
  keep current (t, false) = (t, false)

  abbrev pub then_removed : List Row → Task Row × Bool → Task Row × Bool
  then_removed gone (t, true) = send_some removed gone t
  then_removed gone (t, false) = (t, false)

  -- The two branches of the differential mode.
  abbrev pub differential : Bool → List Row → Task Row → Task Row × Bool
  differential true current t = keep current (send snapshot current t)
  differential false current t =
      let (new, gone) = compute_diff same t.previous_rows current in
      keep current (then_removed gone (send_some added new t))

  abbrev pub is_success : ℤ → Bool
  is_success (pos n) = n == 0
  is_success (negsuc n) = false

  abbrev pub handle_rows : Bool → List Row → Task Row → Task Row × Bool
  handle_rows true current t = send snapshot current t
  handle_rows false current t = differential t.first_run current t

  -- One round of the loop; `false` is a `break`.
  unfoldable pub handle_answer : Bool → Answer Row → Task Row → Task Row × Bool
  handle_answer is_snapshot failed t = (t, true)
  handle_answer is_snapshot (response code rows) t =
      if is_success code then handle_rows is_snapshot rows t else (t, true)

  unfoldable pub run_task : Bool → List (Answer Row) → Task Row → Task Row
  run_task is_snapshot [] t = t
  run_task is_snapshot (a ∷ answers) t =
      let r = handle_answer is_snapshot a t in
      let rest = run_task is_snapshot answers r.0 in if r.1 then rest else r.0
