-- ===== src/Api/Batch.antt =====
-- The micro-batch worker of api-backend/src/kafka/consumer.rs, over any type of items. What the
-- repository gets is logged; that an insert fails changes nothing for the worker.
use aigis_zero.Prelude.{ℕ, List, [], ◌∷◌, ◌++◌, length, leb, if◌then◌else◌}

abbrev pub batch_size : ℕ
batch_size = 50

-- What the `select!` of one round takes.
pub data Turn {ℓ} (A : Type ℓ) : Type ℓ where
  cancelled : Turn A
  tick : Turn A
  item : A → Turn A
  closed : Turn A

module _ {ℓ} {A : Type ℓ} where
  -- The batch, and the batches handed to `insert_batch`.
  abbrev pub flush : List A → List (List A) → List (List A)
  flush [] inserted = inserted
  flush (x ∷ batch) inserted = inserted ++ (x ∷ batch) ∷ []

  abbrev pub push_item : A → List A → List A
  push_item a batch = batch ++ a ∷ []

  -- The loop, which drops its batch at its end; a list of turns without `cancelled` or `closed`
  -- leaves it waiting.
  unfoldable pub persist : List (Turn A) → List A → List (List A) → List A × List (List A)
  persist [] batch inserted = (batch, inserted)
  persist (cancelled ∷ turns) batch inserted = ([], flush batch inserted)
  persist (tick ∷ turns) batch inserted = persist turns [] (flush batch inserted)
  persist (item a ∷ turns) batch inserted =
      let full = persist turns [] (flush (push_item a batch) inserted) in
      let rest = persist turns (push_item a batch) inserted in
      if leb batch_size (length (push_item a batch)) then full else rest
  persist (closed ∷ turns) batch inserted = ([], flush batch inserted)
