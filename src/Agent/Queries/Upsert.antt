-- ===== src/Agent/Queries/Upsert.antt =====
-- What `load_queries` gives for a name after `upsert_queries`.
use aigis_zero.Agent.Queries.{
  ScheduledQuery, QueryRow, load_queries, row_at, upsert_query, upsert_loop, commit, upsert_queries,
}
use aigis_zero.Prelude.{
  ℕ, ◌^◌, String, Bool, true, false, not, ◌||◌, List, [], ◌∷◌, Option, none, some, or_else, Result,
  ok, err, Bool-cases, ◌≡◌, refl, sym, subst, ap, ◌∙◌, inl, inr, if◌then◌else◌, if_elim, ltb,
  str_eq, eq_iff,
}

-- The query of a name, and in a list of updates the last one.
unfoldable pub find : String → List ScheduledQuery → Option ScheduledQuery
find name [] = none
find name (q ∷ queries) = if str_eq q.name name then some q else find name queries

unfoldable pub find_last : String → List ScheduledQuery → Option ScheduledQuery
find_last name [] = none
find_last name (q ∷ queries) =
    or_else (find_last name queries) (if str_eq q.name name then some q else none)

replace :
    (name : String) (q q' : ScheduledQuery) (rest : Option ScheduledQuery)
    → q'.name ≡ q.name
    → (if str_eq q.name name then some q else rest)
      ≡ or_else
          (if str_eq q.name name then some q else none)
          (if str_eq q'.name name then some q' else rest)
replace name q q' rest same = elim (Bool-cases (str_eq q.name name)) [
  | inl e ↦ rw e refl
  | inr e ↦ rw (same, e) refl
]

merge_tests :
    (b c : Bool) (q q' : ScheduledQuery) (rest : Option ScheduledQuery)
    → (c ≡ true → b ≡ false)
    → (if b then some q' else or_else (if c then some q else none) rest)
      ≡ or_else (if c then some q else none) (if b then some q' else rest)
merge_tests true true q q' rest h = let h' = h refl in cc
merge_tests true false q q' rest h = refl
merge_tests false true q q' rest h = refl
merge_tests false false q q' rest h = refl

merge :
    (name : String) (q q' : ScheduledQuery) (rest : Option ScheduledQuery)
    → str_eq q'.name q.name ≡ false
    → (if str_eq q'.name name
        then some q'
        else or_else (if str_eq q.name name then some q else none) rest)
      ≡ or_else
          (if str_eq q.name name then some q else none)
          (if str_eq q'.name name then some q' else rest)
merge name q q' rest other =
    merge_tests (str_eq q'.name name) (str_eq q.name name) q q' rest
      (λ c. subst (λ n. str_eq q'.name n ≡ false) ((eq_iff q.name name).0 c) other)

find-upsert_query :
    (name : String) (now : ℕ) (q : ScheduledQuery) (table : List QueryRow)
    → find name (load_queries (upsert_query now q table))
      ≡ or_else (if str_eq q.name name then some q else none) (find name (load_queries table))
unfolding find upsert_query
find-upsert_query name now q [] = elim (Bool-cases (str_eq q.name name)) [
  | inl e ↦ rw e refl
  | inr e ↦ rw e refl
]
find-upsert_query name now q (r ∷ table) =
    let updated = if str_eq q.name name then some q else none in
    let rest = find name (load_queries table) in
    let is = λ (b : Bool).
      find name (load_queries (if b then row_at now q ∷ table else r ∷ upsert_query now q table))
      ≡ or_else updated (if str_eq r.query.name name then some r.query else rest) in
    elim (Bool-cases (str_eq r.query.name q.name)) [
      | inl e ↦
          let same = (eq_iff r.query.name q.name).0 e in
          subst is (sym e) (replace name q r.query rest same)
      | inr e ↦ subst is (sym e) (
          ap (λ (o : Option ScheduledQuery). if str_eq r.query.name name then some r.query else o)
            (find-upsert_query name now q table)
          ∙ merge name q r.query rest e)
    ]

or_else_assoc : (a b c : Option ScheduledQuery) → or_else a (or_else b c) ≡ or_else (or_else a b) c
or_else_assoc none b c = refl
or_else_assoc (some q) b c = refl

-- What the updates give for every name, or nothing.
abbrev pub IsUpdated : List ScheduledQuery → List QueryRow → Result String (List QueryRow) → Type 0
IsUpdated queries table (err e) = Unit
IsUpdated queries table (ok table') =
    (name : String)
    → find name (load_queries table')
      ≡ or_else (find_last name queries) (find name (load_queries table))

-- The same of the end of the transaction, which leaves the table on an error.
abbrev pub IsUpserted :
    List ScheduledQuery → List QueryRow → List QueryRow × Result String (Unit {0}) → Type 0
IsUpserted queries table (table', ok u) = IsUpdated queries table (ok table')
IsUpserted queries table (table', err e) = table' ≡ table

commit-IsUpserted :
    (commit_fails : Bool) (queries : List ScheduledQuery) (table : List QueryRow)
    (r : Result String (List QueryRow))
    → IsUpdated queries table r
    → IsUpserted queries table (commit commit_fails table r)
commit-IsUpserted commit_fails queries table (err e) h = refl
commit-IsUpserted true queries table (ok table') h = refl
commit-IsUpserted false queries table (ok table') h = h

later :
    (now : ℕ) (queries : List ScheduledQuery) (q : ScheduledQuery) (table : List QueryRow)
    (r : Result String (List QueryRow))
    → IsUpdated queries (upsert_query now q table) r
    → IsUpdated (q ∷ queries) table r
unfolding find_last
later now queries q table (err e) h = tt
later now queries q table (ok table') h = λ name.
    let updated = if str_eq q.name name then some q else none in
    h name
    ∙ ap (or_else (find_last name queries)) (find-upsert_query name now q table)
    ∙ or_else_assoc (find_last name queries) updated (find name (load_queries table))

module _ (fails : ScheduledQuery → Bool) (now : ℕ) where
  upsert_loop-IsUpdated :
      (queries : List ScheduledQuery) (table : List QueryRow)
      → IsUpdated queries table (upsert_loop fails now queries table)
  unfolding upsert_loop find_last
  upsert_loop-IsUpdated [] table = λ name. refl
  upsert_loop-IsUpdated (q ∷ queries) table =
      if_elim (IsUpdated (q ∷ queries) table) (fails q || not (ltb q.interval_secs (2 ^ 63))) tt (
        later now queries q table (upsert_loop fails now queries (upsert_query now q table))
          (upsert_loop-IsUpdated queries (upsert_query now q table)))

-- After an update that goes through, each name has its last query of the update, or the one from
-- before if the update does not name it; an update that fails changes nothing.
pub upsert_queries_lem :
    (fails : ScheduledQuery → Bool) (commit_fails : Bool) (now : ℕ) (queries : List ScheduledQuery)
    (table : List QueryRow)
    → IsUpserted queries table (upsert_queries fails commit_fails now queries table)
unfolding upsert_queries
upsert_queries_lem fails commit_fails now queries table =
    commit-IsUpserted commit_fails queries table (upsert_loop fails now queries table)
      (upsert_loop-IsUpdated fails now queries table)
