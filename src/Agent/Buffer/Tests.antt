-- ===== src/Agent/Buffer/Tests.antt =====
-- The buffer's theorems at a full table of two events.
use aigis_zero.Agent.Buffer.{EventBuffer, PushFaults, is_in, delete_ids, evict, push, drain}
use aigis_zero.Agent.Buffer.Queue.{contents, no_faults, push-err}
use aigis_zero.Agent.Buffer.Refinement.{Op, run, run_queue, run-run_queue}
use aigis_zero.Agent.Buffer.Rows.{IsKeyed}
use aigis_zero.Prelude.{List, [], ◌∷◌, ◌++◌, true, false, ◌≡◌, refl, ◌⊎◌, arith}

program : Unit {0}
unfolding is_in delete_ids evict push drain run run_queue
program = tt

abbrev two_rows : EventBuffer
two_rows = record {
  rows =
      record { id = 4; payload = "a"; created_at = 10 }
      ∷ record { id = 7; payload = "b"; created_at = 11 }
      ∷ [];
  last_id = 7;
  max_events = 2;
}

two_rows-IsKeyed : IsKeyed two_rows
two_rows-IsKeyed = omega arith

-- The third event evicts the first.
evicts : contents (push no_faults 12 "c" two_rows).0 ≡ "b" ∷ "c" ∷ []
unfolding program
evicts = refl

abbrev delete_fails : PushFaults
delete_fails = record { insert = false; count = false; delete = true }

push-err_example :
    ((contents (push delete_fails 12 "c" two_rows).0 ≡ contents two_rows)
      ⊎ (contents (push delete_fails 12 "c" two_rows).0 ≡ contents two_rows ++ "c" ∷ []))
    × IsKeyed (push delete_fails 12 "c" two_rows).0
unfolding program
push-err_example = push-err delete_fails 12 "c" two_rows {e = "delete"} two_rows-IsKeyed refl

abbrev ops : List Op
ops = Op.push 12 "c" ∷ Op.drain 1 ∷ Op.push 13 "d" ∷ Op.drain 5 ∷ []

ops_outputs : (run ops two_rows).1 ≡ ("b" ∷ []) ∷ ("c" ∷ "d" ∷ []) ∷ []
unfolding program
ops_outputs = refl

run-run_queue_example :
    (contents (run ops two_rows).0 ≡ (run_queue 2 ops (contents two_rows)).0)
    × ((run ops two_rows).1 ≡ (run_queue 2 ops (contents two_rows)).1)
run-run_queue_example = run-run_queue ops two_rows two_rows-IsKeyed (omega arith) (omega arith)
