-- ===== src/Agent/Osquery/Replay.antt =====
-- That the results of a differential query, replayed, are the rows of its last answer.
use aigis_zero.Agent.Osquery.{
  ResultAction, snapshot, added, removed, contains, insert_all, difference, compute_diff,
  QueryResult, Answer, failed, response, Task, send_some, keep, then_removed, differential,
  is_success, handle_answer, run_task,
}
use aigis_zero.Prelude.{
  Bool, true, false, not, ◌&&◌, ◌||◌, List, [], ◌∷◌, ◌++◌, none, Bool-cases, ◌≡◌, refl, subst,
  append-nil, append-nil, sym, ap, ◌∙◌, ◌↔◌, inl, inr, if◌then◌else◌, arith,
}

module _ {Row : Type 0} (same : Row → Row → Bool)
    (same_iff : (a b : Row) → (same a b ≡ true) ↔ (a ≡ b)) where
  contains-append :
      (r : Row) (xs ys : List Row)
      → contains same r (xs ++ ys) ≡ (contains same r xs || contains same r ys)
  unfolding contains
  contains-append r [] ys = refl
  contains-append r (x ∷ xs) ys = let ih = contains-append r xs ys in ground arith

  -- Equal rows are in the same lists.
  contains-same :
      (a r : Row) (xs : List Row) → same a r ≡ true → contains same a xs ≡ contains same r xs
  contains-same a r xs e = ap (λ x. contains same x xs) ((same_iff a r).0 e)

  contains-insert_all :
      (r : Row) (rows set : List Row)
      → contains same r (insert_all same rows set) ≡ (contains same r set || contains same r rows)
  unfolding insert_all contains
  contains-insert_all r [] set = ground arith
  contains-insert_all r (x ∷ rows) set = elim (Bool-cases (contains same x set)) [
    | inl e ↦
        let ih = contains-insert_all r rows set in
        rw e (
          ih ∙ elim (Bool-cases (same x r)) [
            | inl q ↦ let k = contains-same x r set q in ground arith
            | inr q ↦ ground arith
          ])
    | inr e ↦
        let ih = contains-insert_all r rows (set ++ x ∷ []) in
        let k = contains-append r set (x ∷ []) in rw e (ground arith)
  ]

  contains-difference :
      (r : Row) (a b : List Row)
      → contains same r (difference same a b) ≡ (contains same r a && not (contains same r b))
  unfolding difference contains
  contains-difference r [] b = refl
  contains-difference r (x ∷ a) b =
      let ih = contains-difference r a b in
      elim (Bool-cases (same x r)) [
        | inl q ↦ let k = contains-same x r b q in ground arith
        | inr q ↦ ground arith
      ]

  -- What a reader of the results holds, as a test on rows.
  abbrev pub replay_one : QueryResult Row → (Row → Bool) → Row → Bool
  replay_one q held r = elim q.action [
    | snapshot ↦ contains same r q.rows
    | added ↦ held r || contains same r q.rows
    | removed ↦ held r && not (contains same r q.rows)
  ]

  unfoldable pub replay : List (QueryResult Row) → (Row → Bool) → Row → Bool
  replay [] held = held
  replay (q ∷ qs) held = replay qs (replay_one q held)

  replay-snoc :
      (qs : List (QueryResult Row)) (q : QueryResult Row) (held : Row → Bool)
      → replay (qs ++ q ∷ []) held ≡ replay_one q (replay qs held)
  unfolding replay
  replay-snoc [] q held = refl
  replay-snoc (p ∷ qs) q held = replay-snoc qs q (replay_one p held)

  abbrev pub nothing : Row → Bool
  nothing r = false

  -- What `send_some` puts on an open channel.
  abbrev results : ResultAction → List Row → List (QueryResult Row)
  results action [] = []
  results action (r ∷ rows) = record { action = action; rows = r ∷ rows } ∷ []

  replay-added :
      (sent : List (QueryResult Row)) (new : List Row) (r : Row)
      → replay (sent ++ results added new) nothing r
        ≡ (replay sent nothing r || contains same r new)
  unfolding contains
  replay-added sent [] r = rw (append-nil sent) (ground arith)
  replay-added sent (x ∷ new) r =
      ap (λ h. h r) (replay-snoc sent (record { action = added; rows = x ∷ new }) nothing)

  replay-removed :
      (sent : List (QueryResult Row)) (gone : List Row) (r : Row)
      → replay (sent ++ results removed gone) nothing r
        ≡ (replay sent nothing r && not (contains same r gone))
  unfolding contains
  replay-removed sent [] r = rw (append-nil sent) (ground arith)
  replay-removed sent (x ∷ gone) r =
      ap (λ h. h r) (replay-snoc sent (record { action = removed; rows = x ∷ gone }) nothing)

  -- A task whose channel is open, and whose results, replayed, are the rows that it keeps.
  pub record IsFollowed (t : Task Row) : Type 0 where
    pub is_open : t.closes_after ≡ none
    pub rows : (r : Row) → replay t.sent nothing r ≡ contains same r t.previous_rows

  replay-compute_diff :
      (sent : List (QueryResult Row)) (previous current : List Row) (r : Row)
      → replay sent nothing r ≡ contains same r previous
      → replay
          ((sent ++ results added (compute_diff same previous current).0)
            ++ results removed (compute_diff same previous current).1)
          nothing
          r
        ≡ contains same r current
  unfolding compute_diff contains
  replay-compute_diff sent previous current r h =
      let new = (compute_diff same previous current).0 in
      let gone = (compute_diff same previous current).1 in
      let prev_set = insert_all same previous [] in
      let curr_set = insert_all same current [] in
      let e1 = replay-removed (sent ++ results added new) gone r in
      let e2 = replay-added sent new r in
      let e3 = contains-difference r curr_set prev_set in
      let e4 = contains-difference r prev_set curr_set in
      let e5 = contains-insert_all r previous [] in
      let e6 = contains-insert_all r current [] in ground arith

  -- A task over an open channel, by its fields.
  abbrev open_task : List Row → Bool → List (QueryResult Row) → Task Row
  open_task previous first sent = record {
    previous_rows = previous;
    first_run = first;
    sent = sent;
    closes_after = none;
  }

  send_both :
      (current new gone previous : List Row) (first : Bool) (sent : List (QueryResult Row))
      → keep same current
          (then_removed same gone (send_some same added new (open_task previous first sent)))
        ≡ (open_task current false ((sent ++ results added new) ++ results removed gone), true)
  send_both current [] [] previous first sent = rw (append-nil sent, append-nil sent) refl
  send_both current [] (y ∷ gone) previous first sent = rw (append-nil sent) refl
  send_both current (x ∷ new) [] previous first sent =
      rw (append-nil (sent ++ results added (x ∷ new))) refl
  send_both current (x ∷ new) (y ∷ gone) previous first sent = refl

  differential-IsFollowed :
      (first : Bool) (current previous : List Row) (sent : List (QueryResult Row))
      → ((r : Row) → replay sent nothing r ≡ contains same r previous)
      → (sent' : List (QueryResult Row)) × (differential same first current
            (open_task previous first sent)
          ≡ (open_task current false sent', true))
        × ((r : Row) → replay sent' nothing r ≡ contains same r current)
  differential-IsFollowed true current previous sent h = (
    sent ++ record { action = snapshot; rows = current } ∷ [],
    refl,
    λ r.
        ap (λ held. held r)
          (replay-snoc sent (record { action = snapshot; rows = current }) nothing),
  )
  differential-IsFollowed false current previous sent h =
      let d = compute_diff same previous current in
      (
        (sent ++ results added d.0) ++ results removed d.1,
        send_both current d.0 d.1 previous false sent,
        λ r. replay-compute_diff sent previous current r (h r),
      )

  -- The rows of the last answer that succeeded, or those from before.
  unfoldable pub latest : List (Answer Row) → List Row → List Row
  latest [] rows = rows
  latest (failed ∷ answers) rows = latest answers rows
  latest (response code current ∷ answers) rows =
      latest answers (if is_success same code then current else rows)

  -- The task after a round with the given outcome.
  abbrev resume : List (Answer Row) → Task Row × Bool → Task Row
  resume answers r = let rest = run_task same false answers r.0 in if r.1 then rest else r.0

  abbrev Replays : List Row → Task Row → Type 0
  Replays rows t = (r : Row) → replay t.sent nothing r ≡ contains same r rows

  run_task-Replays :
      (answers : List (Answer Row)) (first : Bool) (previous : List Row)
      (sent : List (QueryResult Row))
      → Replays previous (open_task previous first sent)
      → Replays
          (latest answers previous)
          (run_task same false answers (open_task previous first sent))
  unfolding run_task handle_answer latest
  run_task-Replays [] first previous sent h = h
  run_task-Replays (failed ∷ answers) first previous sent h =
      run_task-Replays answers first previous sent h
  run_task-Replays (response code current ∷ answers) first previous sent h =
      let t = open_task previous first sent in
      let follows = λ (b : Bool).
        Replays (latest answers (if b then current else previous))
          (resume answers (if b then differential same first current t else (t, true))) in
      elim (Bool-cases (is_success same code)) [
        | inr e ↦ subst follows (sym e) (run_task-Replays answers first previous sent h)
        | inl e ↦
            let (sent', moved, k) = differential-IsFollowed first current previous sent h in
            subst follows (sym e) (
              subst (λ p. Replays (latest answers current) (resume answers p)) (sym moved)
                (run_task-Replays answers false current sent' k))
      ]

  -- Over an open channel, the results of a differential query, replayed from its start, hold exactly
  -- the rows of its last successful answer, through failed queries and osquery errors.
  pub run_task-replay :
      (answers : List (Answer Row)) (r : Row)
      → replay
          (run_task same false answers
            (record { previous_rows = []; first_run = true; sent = []; closes_after = none })).sent
          nothing
          r
        ≡ contains same r (latest answers [])
  unfolding replay contains
  run_task-replay answers r = run_task-Replays answers true [] [] (λ q. refl) r
