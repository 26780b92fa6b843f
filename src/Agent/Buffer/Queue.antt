-- ===== src/Agent/Buffer/Queue.antt =====
-- The buffer as a bounded queue of texts: a push appends and forgets from the front what is over
-- the cap, a drain takes from the front.
use aigis_zero.Agent.Buffer.{Row, EventBuffer, PushFaults, excess, stored, evict, push, drain}
use aigis_zero.Agent.Buffer.Rows.{IsKeyed, delete_oldest, stored-IsKeyed, drop-IsKeyed}
use aigis_zero.Prelude.{
  ℕ, ◌-◌, ◌^◌, ◌≤◌, ◌<◌, String, List, [], ◌∷◌, ◌++◌, map, map-append, Bool, true, false, none,
  some, ok, err, ◌≡◌, refl, ap, ◌∙◌, sym, ◌⊎◌, inl, inr, arith, ltb, length, length-map, take, drop,
  map-drop, map-take, take-append-drop, Bool-cases,
}

abbrev pub payload_of : Row → String
payload_of r = r.payload

abbrev pub contents : EventBuffer → List String
contents b = map payload_of b.rows

-- The last `n` items.
abbrev pub keep_last : ℕ → List String → List String
keep_last n q = drop (length q - n) q

abbrev pub no_faults : PushFaults
no_faults = record { insert = false; count = false; delete = false }

abbrev kept_rows : EventBuffer → EventBuffer
kept_rows b = record b { rows = drop (length b.rows - b.max_events) b.rows }

evict_ok :
    (b : EventBuffer) → IsKeyed b → b.max_events < 2 ^ 63 → evict false b ≡ (kept_rows b, ok tt)
unfolding evict
evict_ok b h small = elim (Bool-cases (ltb b.max_events (length b.rows))) [
  | inl over ↦
      let e : excess b.max_events (length b.rows) ≡ some (length b.rows - b.max_events) =
        ground arith in
      rw (e, evict) (rw (delete_oldest (length b.rows - b.max_events) b.rows h.ascending) refl)
  | inr fits ↦
      let e : excess b.max_events (length b.rows) ≡ none = ground arith in
      let z : length b.rows - b.max_events ≡ 0 = ground arith in rw (e, evict) (rw z refl)
]

contents-kept_rows :
    (b : EventBuffer) → contents (kept_rows b) ≡ keep_last b.max_events (contents b)
contents-kept_rows b =
    map-drop payload_of (length b.rows - b.max_events) b.rows
    ∙ ap (λ k. drop (k - b.max_events) (contents b)) (sym (length-map payload_of b.rows))

contents-stored :
    (json : String) (now : ℕ) (b : EventBuffer)
    → contents (stored json now b) ≡ contents b ++ json ∷ []
contents-stored json now b = map-append payload_of b.rows _

-- What a successful push does to the contents.
abbrev pub enqueue : ℕ → String → List String → List String
enqueue cap json q = keep_last cap (q ++ json ∷ [])

-- A push that meets no fault, under a cap that an `i64` holds, succeeds, appends the event, keeps
-- the last `max_events` of what there is, and keeps the table in key order.
pub push-enqueue :
    (now : ℕ) (json : String) (b : EventBuffer)
    → IsKeyed b
    → b.max_events < 2 ^ 63
    → let (b', r) = push no_faults now json b in
      (r ≡ ok tt)
      × (contents b' ≡ enqueue b.max_events json (contents b))
      × IsKeyed b'
      × (b'.max_events ≡ b.max_events)
unfolding push
push-enqueue now json b h small =
    let s = stored json now b in
    let keyed = stored-IsKeyed json now b h in
    rw (evict_ok s keyed small) (
      refl,
      contents-kept_rows s ∙ ap (keep_last b.max_events) (contents-stored json now b),
      drop-IsKeyed (length s.rows - s.max_events) s keyed,
      refl,
    )

evict-err :
    (fails : Bool) (b : EventBuffer) {e : String}
    → (evict fails b).1 ≡ err e
    → (evict fails b).0 ≡ b
unfolding evict
evict-err fails b h = ground arith

-- A push that fails, whichever statement does and whatever the cap, loses nothing that waited: the
-- contents are as before, or have the new event at the end, and the key order is kept.
pub push-err :
    (faults : PushFaults) (now : ℕ) (json : String) (b : EventBuffer) {e : String}
    → IsKeyed b
    → (push faults now json b).1 ≡ err e
    → ((contents (push faults now json b).0 ≡ contents b)
        ⊎ (contents (push faults now json b).0 ≡ contents b ++ json ∷ []))
      × IsKeyed (push faults now json b).0
unfolding push
push-err faults now json b h failed = elim (Bool-cases faults.insert) [
  | inl i ↦ rw i (inl refl, h)
  | inr i ↦ elim (Bool-cases faults.count) [
    | inl c ↦ rw (i, c) (inr (contents-stored json now b), stored-IsKeyed json now b h)
    | inr c ↦
        let same = evict-err faults.delete (stored json now b) (rw (i, c) at failed) in
        rw (i, c) (rw same (inr (contents-stored json now b), stored-IsKeyed json now b h))
  ]
]

-- A drain that succeeds returns the oldest events, at most as many as asked, and leaves exactly the
-- others, in order; one that fails changes nothing. It fails if a statement does, or if the batch
-- size is no `i64`.
pub drain_splits :
    (fails : Bool) (n : ℕ) (b : EventBuffer)
    → IsKeyed b
    → ((fails ≡ false)
        × (n < 2 ^ 63)
        × ((drain fails n b).1 ≡ ok (take n (contents b)))
        × (take n (contents b) ++ contents (drain fails n b).0 ≡ contents b)
        × IsKeyed (drain fails n b).0)
      ⊎ (((fails ≡ true) ⊎ (2 ^ 63 ≤ n))
          × ((drain fails n b).0 ≡ b)
          × ((drain fails n b).1 ≡ err "drain"))
unfolding drain
drain_splits true n b h = inr (inl refl, refl, refl)
drain_splits false n b h = elim (Bool-cases (ltb (2 ^ 63 - 1) n)) [
  | inl big ↦ inr (inr (ground arith), rw big refl, rw big refl)
  | inr small ↦ inl (
    refl,
    ground arith,
    rw small (ap (λ xs. ok xs) (map-take payload_of n b.rows)),
    rw small (
        rw (delete_oldest n b.rows h.ascending) (
          ap (λ xs. take n (contents b) ++ xs) (map-drop payload_of n b.rows)
          ∙ take-append-drop n (contents b))),
    rw small (rw (delete_oldest n b.rows h.ascending) (drop-IsKeyed n b h)),
  )
]

-- The drain that meets no fault, on the contents.
pub drain-take :
    (n : ℕ) (b : EventBuffer)
    → IsKeyed b
    → n < 2 ^ 63
    → ((drain false n b).1 ≡ ok (take n (contents b)))
      × (contents (drain false n b).0 ≡ drop n (contents b))
      × IsKeyed (drain false n b).0
      × ((drain false n b).0.max_events ≡ b.max_events)
unfolding drain
drain-take n b h small =
    let fits : ltb (2 ^ 63 - 1) n ≡ false = ground arith in
    rw fits (
      rw (delete_oldest n b.rows h.ascending) (
        ap (λ xs. ok xs) (map-take payload_of n b.rows),
        map-drop payload_of n b.rows,
        drop-IsKeyed n b h,
        refl,
      ))
