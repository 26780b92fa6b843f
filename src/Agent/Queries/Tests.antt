-- ===== src/Agent/Queries/Tests.antt =====
-- The update theorem at the seeded table.
use aigis_zero.Agent.Queries.{
  ScheduledQuery, QueryRow, defaults, row_at, upsert_query, upsert_loop, upsert_queries,
}
use aigis_zero.Agent.Queries.Upsert.{find, find_last, IsUpserted, upsert_queries_lem}
use aigis_zero.Prelude.{false, List, [], ◌∷◌, map, ◌≡◌, refl, length}

program : Unit {0}
unfolding upsert_query upsert_loop upsert_queries find find_last
program = tt

abbrev seeded : List QueryRow
seeded = map (row_at 5) defaults

abbrev users : ScheduledQuery
users = record { name = "users"; query = "SELECT 1"; interval_secs = 60; snapshot = false }

-- A known name is updated in place.
updated : length (upsert_queries (λ q. false) false 9 (users ∷ []) seeded).0 ≡ 3
unfolding program
updated = refl

upsert_queries_lem_example :
    IsUpserted (users ∷ []) seeded (upsert_queries (λ q. false) false 9 (users ∷ []) seeded)
upsert_queries_lem_example = upsert_queries_lem (λ q. false) false 9 (users ∷ []) seeded
