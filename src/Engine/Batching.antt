-- ===== src/Engine/Batching.antt =====
-- What the batcher hands to the sink, and that the table of alerts takes an alert once.
use aigis_zero.Engine.Metrics.{EngineMetrics}
use aigis_zero.Engine.Models.{Uuid, Alert, NewAlertEntity}
use aigis_zero.Engine.Sink.{has_alert, insert_row, insert_rows}
use aigis_zero.Engine.Workers.{
  BatcherTurn, alerted, slept, all_sent, stopping, Batching, flush, flush_some, flush_last,
  batch_loop,
}
use aigis_zero.Prelude.{
  ℕ, String, true, ◌||◌, List, [], ◌∷◌, ◌++◌, Result, leb, length, concat, concat-snoc, snoc-append,
  Bool-cases, ◌≡◌, refl, sym, subst, ap, ◌∙◌, inl, inr, append-nil, append_assoc, if◌then◌else◌,
  if_elim, All, ◌==◌, ==_refl,
}

-- The alerts that reach the batcher before it stops, those included that it drains at the shutdown.
abbrev pub taken : List BatcherTurn → List Alert
taken [] = []
taken (alerted a due ∷ turns) = a ∷ taken turns
taken (slept due ∷ turns) = taken turns
taken (all_sent ∷ turns) = []
taken (stopping waiting ∷ turns) = waiting

module _ (send_batch : List Alert → Result String (Unit {0})) (batch_max_size : ℕ) where
  -- All alerts of a state, in order.
  abbrev pub handed : Batching → List Alert
  handed s = concat s.batches ++ s.buffer

  handed-flush : (s : Batching) → handed (flush send_batch batch_max_size s) ≡ handed s
  handed-flush s = append-nil _ ∙ concat-snoc s.batches s.buffer

  handed-flush_some :
      (buffer : List Alert) (batches : List (List Alert)) (metrics : EngineMetrics)
      → handed (
          flush_some send_batch batch_max_size buffer
            (record { buffer = buffer; batches = batches; metrics = metrics }))
        ≡ concat batches ++ buffer
  handed-flush_some [] batches metrics = refl
  handed-flush_some (a ∷ buffer) batches metrics =
      handed-flush (record { buffer = a ∷ buffer; batches = batches; metrics = metrics })

  handed-flush_last :
      (buffer : List Alert) (batches : List (List Alert)) (metrics : EngineMetrics)
      → handed (
          flush_last send_batch batch_max_size buffer
            (record { buffer = buffer; batches = batches; metrics = metrics }))
        ≡ concat batches ++ buffer
  handed-flush_last [] batches metrics = refl
  handed-flush_last (a ∷ buffer) batches metrics = append-nil _ ∙ concat-snoc batches (a ∷ buffer)

  -- Every alert is handed to the sink once, and the alerts are in their order, over all batches,
  -- with those that still wait; a failing sink changes nothing of this.
  pub batch_loop-handed :
      (turns : List BatcherTurn) (s : Batching)
      → handed (batch_loop send_batch batch_max_size turns s) ≡ handed s ++ taken turns
  unfolding batch_loop
  batch_loop-handed [] s = sym (append-nil (handed s))
  batch_loop-handed (alerted a due ∷ turns) s =
      let s' = record s { buffer = s.buffer ++ a ∷ [] } in
      if_elim (λ r. handed r ≡ handed s ++ a ∷ taken turns)
        (leb batch_max_size (length s'.buffer) || due)
        (batch_loop-handed turns (flush send_batch batch_max_size s')
          ∙ ap (λ c. c ++ taken turns) (handed-flush s')
          ∙ snoc-append (concat s.batches) s.buffer a (taken turns))
        (batch_loop-handed turns s' ∙ snoc-append (concat s.batches) s.buffer a (taken turns))
  batch_loop-handed (slept due ∷ turns) s =
      if_elim (λ r. handed r ≡ handed s ++ taken turns) due
        (batch_loop-handed turns (flush_some send_batch batch_max_size s.buffer s)
          ∙ ap (λ c. c ++ taken turns) (handed-flush_some s.buffer s.batches s.metrics))
        (batch_loop-handed turns s)
  batch_loop-handed (all_sent ∷ turns) s =
      handed-flush_last s.buffer s.batches s.metrics ∙ sym (append-nil (handed s))
  batch_loop-handed (stopping waiting ∷ turns) s =
      handed-flush_some (s.buffer ++ waiting) s.batches s.metrics
      ∙ sym (append_assoc (concat s.batches) s.buffer waiting)

has_alert-append :
    (id : Uuid) (xs ys : List NewAlertEntity)
    → has_alert id xs ≡ true
    → has_alert id (xs ++ ys) ≡ true
unfolding has_alert
has_alert-append id [] ys h = cc
has_alert-append id (x ∷ xs) ys h = elim (Bool-cases (x.alert_id == id)) [
  | inl e ↦ rw e refl
  | inr e ↦ rw e (has_alert-append id xs ys (rw e at h))
]

has_alert-snoc :
    (e : NewAlertEntity) (xs : List NewAlertEntity) → has_alert e.alert_id (xs ++ e ∷ []) ≡ true
unfolding has_alert
has_alert-snoc e [] = rw (==_refl e.alert_id) refl
has_alert-snoc e (x ∷ xs) = elim (Bool-cases (x.alert_id == e.alert_id)) [
  | inl h ↦ rw h refl
  | inr h ↦ rw h (has_alert-snoc e xs)
]

has_alert-insert_row :
    (id : Uuid) (e : NewAlertEntity) (table : List NewAlertEntity)
    → has_alert id table ≡ true
    → has_alert id (insert_row e table) ≡ true
unfolding insert_row
has_alert-insert_row id e table h =
    if_elim (λ t. has_alert id t ≡ true) (has_alert e.alert_id table) h
      (has_alert-append id table (e ∷ []) h)

has_alert-insert_row_self :
    (e : NewAlertEntity) (table : List NewAlertEntity)
    → has_alert e.alert_id (insert_row e table) ≡ true
unfolding insert_row
has_alert-insert_row_self e table = elim (Bool-cases (has_alert e.alert_id table)) [
  | inl h ↦
      subst (λ b. has_alert e.alert_id (if b then table else table ++ e ∷ []) ≡ true) (sym h) h
  | inr h ↦ rw h (has_alert-snoc e table)
]

has_alert-insert_rows :
    (id : Uuid) (es table : List NewAlertEntity)
    → has_alert id table ≡ true
    → has_alert id (insert_rows es table) ≡ true
unfolding insert_rows
has_alert-insert_rows id [] table h = h
has_alert-insert_rows id (e ∷ es) table h =
    has_alert-insert_rows id es (insert_row e table) (has_alert-insert_row id e table h)

-- Rows whose ids the table has are left out.
insert_rows-absorbed :
    (es table : List NewAlertEntity)
    → All (λ (e : NewAlertEntity). has_alert e.alert_id table ≡ true) es
    → insert_rows es table ≡ table
unfolding insert_rows insert_row
insert_rows-absorbed [] table h = refl
insert_rows-absorbed (e ∷ es) table h = rw h.0 (insert_rows-absorbed es table h.1)

All-insert_rows :
    (es table : List NewAlertEntity)
    → All (λ (e : NewAlertEntity). has_alert e.alert_id (insert_rows es table) ≡ true) es
unfolding insert_rows
All-insert_rows [] table = tt
All-insert_rows (e ∷ es) table = (
  has_alert-insert_rows e.alert_id es (insert_row e table) (has_alert-insert_row_self e table),
  All-insert_rows es (insert_row e table),
)

-- Sending a batch to the table again, after a first time that went through, adds nothing.
pub insert_rows_idem :
    (es table : List NewAlertEntity) → insert_rows es (insert_rows es table) ≡ insert_rows es table
insert_rows_idem es table =
    insert_rows-absorbed es (insert_rows es table) (All-insert_rows es table)
