-- ===== src/Api/Flushing.antt =====
-- What the micro-batch worker hands to the repository.
use aigis_zero.Api.Batch.{
  batch_size, Turn, cancelled, tick, item, closed, flush, push_item, persist,
}
use aigis_zero.Prelude.{
  ◌<◌, ◌≤◌, List, [], ◌∷◌, ◌++◌, length, leb, Bool-cases, ◌≡◌, refl, sym, ap, ◌∙◌, inl, inr,
  append-nil, length-append, All, All-append, concat, concat-snoc, snoc-append, arith,
}

module _ {ℓ} {A : Type ℓ} where
  -- The items that arrive before the worker stops.
  abbrev pub received : List (Turn A) → List A
  received [] = []
  received (cancelled ∷ turns) = []
  received (closed ∷ turns) = []
  received (tick ∷ turns) = received turns
  received (item a ∷ turns) = a ∷ received turns

  -- A batch that may be inserted.
  abbrev pub IsBatch : List A → Type 0
  IsBatch xs = (0 < length xs) × (length xs ≤ batch_size)

  concat-flush :
      (batch : List A) (inserted : List (List A))
      → concat (flush batch inserted) ≡ concat inserted ++ batch
  concat-flush [] inserted = sym (append-nil (concat inserted))
  concat-flush (x ∷ batch) inserted = concat-snoc inserted (x ∷ batch)

  All-flush :
      (batch : List A) (inserted : List (List A))
      → length batch ≤ batch_size
      → All IsBatch inserted
      → All IsBatch (flush batch inserted)
  All-flush [] inserted h k = k
  All-flush (x ∷ batch) inserted h k =
      All-append IsBatch inserted ((x ∷ batch) ∷ []) k ((omega arith, h), tt)

  -- The worker, started with less than a full batch, inserts only batches of 1 to 50 items, and the
  -- inserted batches with what still waits are the items that arrived, each once and in order.
  pub persist_lem :
      (turns : List (Turn A)) (batch : List A) (inserted : List (List A))
      → length batch < batch_size
      → All IsBatch inserted
      → let (batch', inserted') = persist turns batch inserted in
        (concat inserted' ++ batch' ≡ (concat inserted ++ batch) ++ received turns)
        × All IsBatch inserted'
  unfolding persist
  persist_lem [] batch inserted h k = (sym (append-nil _), k)
  persist_lem (cancelled ∷ turns) batch inserted h k =
      (ap (λ c. c ++ []) (concat-flush batch inserted), All-flush batch inserted (omega arith) k)
  persist_lem (closed ∷ turns) batch inserted h k =
      (ap (λ c. c ++ []) (concat-flush batch inserted), All-flush batch inserted (omega arith) k)
  persist_lem (tick ∷ turns) batch inserted h k =
      let ih =
        persist_lem turns [] (flush batch inserted) (omega arith)
          (All-flush batch inserted (omega arith) k) in
      (
        ih.0 ∙ (rw (append-nil (concat (flush batch inserted)), concat-flush batch inserted) refl),
        ih.1,
      )
  persist_lem (item a ∷ turns) batch inserted h k =
      elim (Bool-cases (leb batch_size (length (push_item a batch)))) [
        | inl e ↦
            let filled = push_item a batch in
            let ih =
              persist_lem turns [] (flush filled inserted) (omega arith)
                (All-flush filled inserted (omega (arith, length-append batch (a ∷ []))) k) in
            rw e (
              ih.0
                  ∙ ap (λ c. c ++ received turns)
                      (append-nil (concat (flush filled inserted)) ∙ concat-flush filled inserted)
                  ∙ snoc-append (concat inserted) batch a (received turns),
              ih.1,
            )
        | inr e ↦
            let ih = persist_lem turns (push_item a batch) inserted (ground arith) k in
            rw e (ih.0 ∙ snoc-append (concat inserted) batch a (received turns), ih.1)
      ]
