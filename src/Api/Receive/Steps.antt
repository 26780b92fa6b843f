-- ===== src/Api/Receive/Steps.antt =====
-- What single turns of the receive loop and of its worker keep.
use aigis_zero.Api.Batch.{flush, persist, item, tick, batch_size, push_item}
use aigis_zero.Api.Events.{NewEventLogEntity, LiveEvent}
use aigis_zero.Api.Flushing.{IsBatch, persist_lem}
use aigis_zero.Api.Receive.{
  capacity, Receiving, send, try_send, take_entry, take_turn, tick_over, stop_worker, worked,
}
use aigis_zero.Prelude.{
  ◌≤◌, ◌<◌, List, [], ◌∷◌, ◌++◌, Option, none, some, length, length-append, ltb, leb, ◌≡◌, ◌⊎◌,
  refl, sym, ap, subst, ◌∙◌, arith, append-nil, append_assoc, append-snoc, concat, All, Bool-cases,
  Bool, true, false, not, ◌&&◌, if◌then◌else◌, if_elim, inl, inr,
}

abbrev pub with_some {ℓ} : {A : Type ℓ} → Option A → List A → List A
with_some none xs = xs
with_some (some x) xs = x ∷ xs

pub with_some-append {ℓ} :
    {A : Type ℓ} (o : Option A) (xs : List A) → with_some o [] ++ xs ≡ with_some o xs
with_some-append none xs = refl
with_some-append (some x) xs = refl

-- A list that is divided into two, each of which keeps its order.
pub data IsSplit {ℓ} {A : Type ℓ} : List A → List A → List A → Type ℓ where
  nothing : IsSplit [] [] []
  left : {xs ys zs : List A} → (z : A) → IsSplit xs ys zs → IsSplit (xs ++ z ∷ []) ys (zs ++ z ∷ [])
  right :
      {xs ys zs : List A} → (z : A) → IsSplit xs ys zs → IsSplit xs (ys ++ z ∷ []) (zs ++ z ∷ [])

-- What has been handed to the repository, waits in the batch, and is in the channel.
abbrev pub kept : Receiving → List NewEventLogEntity
kept s = (concat s.inserted ++ s.batch) ++ s.queue

-- Nothing is dropped before a channel's worth has been kept, or the worker is over.
abbrev pub HasFilled : Bool → List NewEventLogEntity → List NewEventLogEntity → Type 0
HasFilled over dropped kept = (dropped ≡ []) ⊎ ((over ≡ true) ⊎ (capacity ≤ length kept))

-- After these events and entries: all events are broadcast, the entries are divided into the kept
-- and the dropped, none is dropped before 10,000 are kept or the worker is over, the channel is
-- within its capacity, a batch waits while it has less than 50 entries, none after the end of the
-- worker, and the batches that were handed over have 1 to 50.
pub record IsReceived (events : List LiveEvent) (new : List NewEventLogEntity) (s : Receiving)
    : Type 0 where
  pub broadcasts : s.broadcast ≡ events
  pub splits : IsSplit (kept s) s.dropped new
  pub filled : HasFilled s.worker_over s.dropped (kept s)
  pub flushed : s.worker_over ≡ true → s.batch ≡ []
  pub queued : length s.queue ≤ capacity
  pub waiting : length s.batch < batch_size
  pub batches : All IsBatch s.inserted

abbrev pub started : Receiving
started = record {
  broadcast = [];
  queue = [];
  batch = [];
  inserted = [];
  dropped = [];
  loop_over = false;
  worker_over = false;
}

-- The worker's batch stays small.
persist-waits {ℓ} :
    {A : Type ℓ} (t : A) (batch : List A) (inserted : List (List A))
    → length batch < batch_size
    → length (persist (item t ∷ []) batch inserted).0 < batch_size
unfolding persist
persist-waits t batch inserted h = elim (Bool-cases (leb batch_size (length (push_item t batch)))) [
  | inl e ↦ rw e (omega arith)
  | inr e ↦ rw e (ground arith)
]

pub send-IsReceived :
    (o : Option LiveEvent) (events : List LiveEvent) (new : List NewEventLogEntity) (s : Receiving)
    → IsReceived events new s
    → IsReceived (events ++ with_some o []) new (send o s)
send-IsReceived none events new s h = subst (λ es. IsReceived es new s) (sym (append-nil events)) h
send-IsReceived (some e) events new s h = record {
  broadcasts = ap (λ c. c ++ e ∷ []) h.broadcasts;
  splits = h.splits;
  filled = h.filled;
  flushed = h.flushed;
  queued = h.queued;
  waiting = h.waiting;
  batches = h.batches;
}

-- An entry that is kept leaves the others in place.
fills-grown :
    (s : Receiving) (e : NewEventLogEntity)
    → HasFilled s.worker_over s.dropped (kept s)
    → HasFilled s.worker_over s.dropped (kept (record s { queue = s.queue ++ e ∷ [] }))
fills-grown s e (inl none_dropped) = inl none_dropped
fills-grown s e (inr (inl over)) = inr (inl over)
fills-grown s e (inr (inr full)) = inr (
    inr (
      omega (
        arith,
        length-append (concat s.inserted ++ s.batch) s.queue,
        length-append s.queue (e ∷ []),
        length-append (concat s.inserted ++ s.batch) (s.queue ++ e ∷ []),
      )))

-- What refuses an entry: the worker is over, or the channel is full.
refused :
    (s : Receiving)
    → (not s.worker_over && ltb (length s.queue) capacity) ≡ false
    → (s.worker_over ≡ true) ⊎ (capacity ≤ length (kept s))
refused s c = elim (Bool-cases s.worker_over) [
  | inl over ↦ inl over
  | inr runs ↦
      let full : capacity ≤ length s.queue = ground arith in
      inr (omega (arith, length-append (concat s.inserted ++ s.batch) s.queue))
]

-- The worker hands over its batch, and may end with it.
pub flush-IsReceived :
    (over : Bool) (events : List LiveEvent) (new : List NewEventLogEntity) (s : Receiving)
    → (s.worker_over ≡ true → over ≡ true)
    → IsReceived events new s
    → IsReceived events new
        (record (worked ([], flush s.batch s.inserted) s) { worker_over = over })
unfolding persist
flush-IsReceived over events new s later h =
    let handed = persist_lem (tick ∷ []) s.batch s.inserted h.waiting h.batches in
    let same = ap (λ c. c ++ s.queue) (handed.0 ∙ append-nil (concat s.inserted ++ s.batch)) in
    record {
      broadcasts = h.broadcasts;
      splits = subst (λ k. IsSplit k s.dropped new) (sym same) h.splits;
      filled = subst (HasFilled over s.dropped) (sym same) (elim h.filled [
        | inl kept_all ↦ inl kept_all
        | inr (inl ended) ↦ inr (inl (later ended))
        | inr (inr full) ↦ inr (inr full)
      ]);
      flushed = λ ended. refl;
      queued = h.queued;
      waiting = omega arith;
      batches = handed.1;
    }

pub try_send-IsReceived :
    (o : Option NewEventLogEntity) (events : List LiveEvent) (new : List NewEventLogEntity)
    (s : Receiving)
    → IsReceived events new s
    → IsReceived events (new ++ with_some o []) (try_send o s)
try_send-IsReceived none events new s h =
    subst (λ es. IsReceived events es s) (sym (append-nil new)) h
try_send-IsReceived (some e) events new s h =
    elim (Bool-cases (not s.worker_over && ltb (length s.queue) capacity)) [
      | inl c ↦ rw c (record {
        broadcasts = h.broadcasts;
        splits =
            subst (λ k. IsSplit k s.dropped (new ++ e ∷ []))
              (append_assoc (concat s.inserted ++ s.batch) s.queue (e ∷ [])) (left e h.splits);
        filled = fills-grown s e h.filled;
        flushed = h.flushed;
        queued = ground (arith, length-append s.queue (e ∷ []));
        waiting = h.waiting;
        batches = h.batches;
      })
      | inr c ↦ rw c (record {
        broadcasts = h.broadcasts;
        splits = right e h.splits;
        filled = inr (refused s c);
        flushed = h.flushed;
        queued = h.queued;
        waiting = h.waiting;
        batches = h.batches;
      })
    ]

pub take_entry-IsReceived :
    (queue : List NewEventLogEntity) (events : List LiveEvent) (new : List NewEventLogEntity)
    (s : Receiving)
    → queue ≡ s.queue
    → s.worker_over ≡ false
    → IsReceived events new s
    → IsReceived events new (take_entry queue s)
unfolding persist
take_entry-IsReceived [] events new s k runs h =
    if_elim (IsReceived events new) s.loop_over
      (flush-IsReceived true events new s (λ over. refl) h) h
take_entry-IsReceived (e ∷ queue) events new s k runs h =
    let queued = ap length k in
    let handed = persist_lem (item e ∷ []) s.batch s.inserted h.waiting h.batches in
    let same =
      ap (λ c. c ++ queue) handed.0
      ∙ append-snoc (concat s.inserted ++ s.batch) e queue
      ∙ ap (◌++◌ (concat s.inserted ++ s.batch)) k in
    record {
      broadcasts = h.broadcasts;
      splits = subst (λ k. IsSplit k s.dropped new) (sym same) h.splits;
      filled = subst (HasFilled s.worker_over s.dropped) (sym same) h.filled;
      flushed = λ over. cc;
      queued = ground arith;
      waiting = persist-waits e s.batch s.inserted h.waiting;
      batches = handed.1;
    }

-- A round of the worker changes nothing once it is over.
pub unless_over :
    (over : Bool) (events : List LiveEvent) (new : List NewEventLogEntity) (s t : Receiving)
    → (over ≡ false → IsReceived events new t)
    → IsReceived events new s
    → IsReceived events new (if over then s else t)
unless_over true events new s t goes h = h
unless_over false events new s t goes h = goes refl

take_entry-loop_over :
    (queue : List NewEventLogEntity) (s : Receiving) → (take_entry queue s).loop_over ≡ s.loop_over
take_entry-loop_over [] s =
    if_elim (λ (t : Receiving). t.loop_over ≡ s.loop_over) s.loop_over refl refl
take_entry-loop_over (e ∷ queue) s = refl

pub take_turn-loop_over : (s : Receiving) → (take_turn s).loop_over ≡ s.loop_over
take_turn-loop_over s =
    if_elim (λ (t : Receiving). t.loop_over ≡ s.loop_over) s.worker_over refl
      (take_entry-loop_over s.queue s)

pub tick_over-loop_over : (s : Receiving) → (tick_over s).loop_over ≡ s.loop_over
tick_over-loop_over s =
    if_elim (λ (t : Receiving). t.loop_over ≡ s.loop_over) s.worker_over refl refl

pub stop_worker-loop_over : (s : Receiving) → (stop_worker s).loop_over ≡ s.loop_over
stop_worker-loop_over s =
    if_elim (λ (t : Receiving). t.loop_over ≡ s.loop_over) s.worker_over refl refl

pub sent-loop_over :
    (event : Option LiveEvent) (entry : Option NewEventLogEntity) (s : Receiving)
    → (try_send entry (send event s)).loop_over ≡ s.loop_over
sent-loop_over none none s = refl
sent-loop_over (some v) none s = refl
sent-loop_over none (some e) s =
    if_elim (λ (t : Receiving). t.loop_over ≡ s.loop_over)
      (not s.worker_over && ltb (length s.queue) capacity) refl refl
sent-loop_over (some v) (some e) s =
    if_elim (λ (t : Receiving). t.loop_over ≡ s.loop_over)
      (not s.worker_over && ltb (length s.queue) capacity) refl refl
