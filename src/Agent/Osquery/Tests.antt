-- ===== src/Agent/Osquery/Tests.antt =====
-- The replay theorem at a query with three answers; the rows are numbers.
use aigis_zero.Agent.Osquery.{
  contains, insert_all, difference, compute_diff, Answer, failed, response, handle_answer, run_task,
}
use aigis_zero.Agent.Osquery.Replay.{replay, nothing, latest, run_task-replay}
use aigis_zero.Prelude.{ℕ, pos, true, false, List, [], ◌∷◌, none, ◌≡◌, refl, ◌==◌, ==_iff}

program : Unit {0}
unfolding contains insert_all difference compute_diff handle_answer run_task replay latest
program = tt

abbrev answers : List (Answer ℕ)
answers =
    response (pos 0) (1 ∷ 2 ∷ [])
    ∷ failed
    ∷ response (pos 0) (2 ∷ 3 ∷ 3 ∷ [])
    ∷ response (pos 1) []
    ∷ []

gone_and_new : compute_diff ◌==◌ (1 ∷ 2 ∷ []) (2 ∷ 3 ∷ 3 ∷ []) ≡ (3 ∷ [], 1 ∷ [])
unfolding program
gone_and_new = refl

run_task-replay_example :
    replay ◌==◌ ==_iff
      (run_task ◌==◌ false answers
        (record { previous_rows = []; first_run = true; sent = []; closes_after = none })).sent
      (nothing ◌==◌ ==_iff)
      1
    ≡ contains ◌==◌ 1 (latest ◌==◌ ==_iff answers [])
run_task-replay_example = run_task-replay ◌==◌ ==_iff answers 1
