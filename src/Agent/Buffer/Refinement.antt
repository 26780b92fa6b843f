-- ===== src/Agent/Buffer/Refinement.antt =====
-- Any sequence of pushes and drains behaves as on the bounded queue of texts.
use aigis_zero.Agent.Buffer as Table
use aigis_zero.Agent.Buffer.{EventBuffer}
use aigis_zero.Agent.Buffer.Queue.{contents, enqueue, no_faults, push-enqueue, drain-take}
use aigis_zero.Agent.Buffer.Rows.{IsKeyed}
use aigis_zero.Prelude.{
  ℕ, ◌^◌, ◌<◌, String, List, [], ◌∷◌, Result, ok, err, ◌≡◌, refl, ap, false, arith, take, drop, All,
}

pub data Op : Type 0 where
  push : ℕ → String → Op
  drain : ℕ → Op

-- The batch size of a drain is an `i64`.
abbrev pub Fits : Op → Type 0
Fits (push now json) = Unit
Fits (drain n) = n < 2 ^ 63

abbrev pub drained : Result String (List String) → List String
drained (ok xs) = xs
drained (err e) = []

-- The operations in turn: the buffer, and what each drain returned.
unfoldable pub run : List Op → EventBuffer → EventBuffer × List (List String)
run [] b = (b, [])
run (push now json ∷ ops) b = run ops (Table.push no_faults now json b).0
run (drain n ∷ ops) b =
    let (b', r) = Table.drain false n b in let (b'', outs) = run ops b' in (b'', drained r ∷ outs)

-- The same on the abstract queue.
unfoldable pub run_queue : ℕ → List Op → List String → List String × List (List String)
run_queue cap [] q = (q, [])
run_queue cap (push now json ∷ ops) q = run_queue cap ops (enqueue cap json q)
run_queue cap (drain n ∷ ops) q =
    let (q', outs) = run_queue cap ops (drop n q) in (q', take n q ∷ outs)

-- From any table in key order, under a cap that an `i64` holds, a sequence of pushes and drains
-- that meet no fault returns what the bounded queue returns, and leaves what it leaves.
pub run-run_queue :
    (ops : List Op) (b : EventBuffer)
    → IsKeyed b
    → b.max_events < 2 ^ 63
    → All Fits ops
    → (contents (run ops b).0 ≡ (run_queue b.max_events ops (contents b)).0)
      × ((run ops b).1 ≡ (run_queue b.max_events ops (contents b)).1)
unfolding run run_queue
run-run_queue [] b h small fits = (refl, refl)
run-run_queue (push now json ∷ ops) b h small fits =
    let (_, view, keyed, cap) = push-enqueue now json b h small in
    let ih = run-run_queue ops (Table.push no_faults now json b).0 keyed (omega arith) fits.1 in
    rw (cap, view) at ih
run-run_queue (drain n ∷ ops) b h small fits =
    let (taken, view, keyed, cap) = drain-take n b h fits.0 in
    let ih = run-run_queue ops (Table.drain false n b).0 keyed (omega arith) fits.1 in
    let (left, outs) = rw (cap, view) at ih in
    (left, rw taken (ap (λ o. take n (contents b) ∷ o) outs))
