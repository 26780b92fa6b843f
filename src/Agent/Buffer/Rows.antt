-- ===== src/Agent/Buffer/Rows.antt =====
-- The key order of the table, and what deleting its oldest rows leaves.
use aigis_zero.Agent.Buffer.{Row, EventBuffer, is_in, delete_ids, oldest_ids, stored}
use aigis_zero.Prelude.{
  ℕ, zero, suc, ◌+◌, ◌≤◌, ◌<◌, List, [], ◌∷◌, ◌++◌, ◌≡◌, refl, ap, arith, drop, All, All-append,
  All-drop, String,
}

-- Ids grow along the list.
abbrev pub Ascending : List Row → Type 0
Ascending [] = Unit
Ascending (r ∷ rows) = All (λ (s : Row). r.id < s.id) rows × Ascending rows

-- The table is in key order, and no id is above the sequence.
pub record IsKeyed (b : EventBuffer) : Type 0 where
  pub ascending : Ascending b.rows
  pub bounded : All (λ (r : Row). r.id ≤ b.last_id) b.rows

delete_nil : (rows : List Row) → delete_ids [] rows ≡ rows
unfolding delete_ids is_in
delete_nil [] = refl
delete_nil (r ∷ rows) = ap (◌∷◌ r) (delete_nil rows)

-- An id below all others names no other row.
delete_below :
    (i : ℕ) (ids : List ℕ) (rows : List Row)
    → All (λ (r : Row). i < r.id) rows
    → delete_ids (i ∷ ids) rows ≡ delete_ids ids rows
unfolding delete_ids is_in
delete_below i ids [] h = refl
delete_below i ids (r ∷ rows) h = ground (arith, delete_below i ids rows h.1)

-- Deleting the rows with the `n` smallest ids drops the first `n` rows.
pub delete_oldest :
    (n : ℕ) (rows : List Row) → Ascending rows → delete_ids (oldest_ids n rows) rows ≡ drop n rows
unfolding delete_ids is_in
delete_oldest zero rows h = delete_nil rows
delete_oldest (suc n) [] h = refl
delete_oldest (suc n) (r ∷ rows) h =
    ground (arith, delete_below r.id (oldest_ids n rows) rows h.0, delete_oldest n rows h.1)

Ascending-snoc :
    (rows : List Row) (r : Row)
    → Ascending rows
    → All (λ (s : Row). s.id < r.id) rows
    → Ascending (rows ++ r ∷ [])
Ascending-snoc [] r h k = (tt, tt)
Ascending-snoc (s ∷ rows) r h k = (
  All-append (λ (q : Row). s.id < q.id) rows (r ∷ []) h.0 (k.0, tt),
  Ascending-snoc rows r h.1 k.1,
)

pub Ascending-drop : (n : ℕ) (rows : List Row) → Ascending rows → Ascending (drop n rows)
Ascending-drop zero rows h = h
Ascending-drop (suc n) [] h = h
Ascending-drop (suc n) (r ∷ rows) h = Ascending-drop n rows h.1

All-le :
    (n m : ℕ) (rows : List Row)
    → n ≤ m
    → All (λ (r : Row). r.id ≤ n) rows
    → All (λ (r : Row). r.id ≤ m) rows
All-le n m [] h k = k
All-le n m (r ∷ rows) h k = (omega arith, All-le n m rows h k.1)

All-lt :
    (n : ℕ) (rows : List Row)
    → All (λ (r : Row). r.id ≤ n) rows
    → All (λ (r : Row). r.id < n + 1) rows
All-lt n [] k = k
All-lt n (r ∷ rows) k = (omega arith, All-lt n rows k.1)

pub stored-IsKeyed :
    (json : String) (now : ℕ) (b : EventBuffer) → IsKeyed b → IsKeyed (stored json now b)
stored-IsKeyed json now b h = record {
  ascending = Ascending-snoc b.rows _ h.ascending (All-lt b.last_id b.rows h.bounded);
  bounded =
      All-append (λ (r : Row). r.id ≤ b.last_id + 1) b.rows _
        (All-le b.last_id (b.last_id + 1) b.rows (omega arith) h.bounded) (omega arith, tt);
}

pub drop-IsKeyed :
    (n : ℕ) (b : EventBuffer) → IsKeyed b → IsKeyed (record b { rows = drop n b.rows })
drop-IsKeyed n b h = record {
  ascending = Ascending-drop n b.rows h.ascending;
  bounded = All-drop (λ (r : Row). r.id ≤ b.last_id) n b.rows h.bounded;
}
