-- ===== src/Api/Listing/Pages.antt =====
-- What the listings promise: pages that fit together, and bounds.
use aigis_zero.Api.Errors.{AppError, DieselError}
use aigis_zero.Api.Events.{NewEventLogEntity}
use aigis_zero.Api.Listing.{
  filter, order_desc, limited, limit_of, offset_of, Outages, guarded, NodeFilterParams,
  NodeSummaryDto, summary, enrolled_after, node_matches, list_nodes, AlertFilterParams,
  alert_matches, created_after, list_alerts, LogFilterParams, log_matches, logged_after,
  search_logs,
}
use aigis_zero.Api.Listing.Order.{
  count, count-order_desc, count-map, Descends, Descends-order_desc, map-Descends, walk, walk-cong,
  Reordered, order_desc-filter, walk-map, walk-limited, take_all, length-order_desc, filter-All,
  All-order_desc, All-take,
}
use aigis_zero.Engine.Models.{NewAlertEntity}
use aigis_zero.Fleet.Database.{Node}
use aigis_zero.Prelude.{
  ℕ, ◌*◌, ◌≤◌, String, Bool, true, false, List, [], map, Option, none, some, Result, ok, err, ℤ,
  pos, ◌≡◌, not, ◌||◌, is_some, is_ok, refl, sym, ap, subst, ◌∙◌, arith, leb, length, length-take,
  drop, clamp, All, All-drop,
}

-- Nothing fails.
abbrev pub calm : Outages
calm = record { pool = none; statement = none }

-- The rows of an answer.
abbrev pub rows {ℓ} : {A : Type ℓ} → Result AppError (List A × ℕ) → List A
rows (ok (xs, total)) = xs
rows (err e) = []

abbrev pub total {ℓ} : {A : Type ℓ} → Result AppError (List A × ℕ) → ℕ
total (ok (xs, n)) = n
total (err e) = 0

clamp_inside : (l most : ℕ) → 1 ≤ l → l ≤ most → clamp (pos l) 1 most ≡ l
clamp_inside l most h k = ground arith

abbrev pub summary_after : NodeSummaryDto → NodeSummaryDto → Bool
summary_after a b = leb b.last_enrolled_at a.last_enrolled_at

module _ {ℓ} {A : Type ℓ} (at_least : A → A → Bool) (xs : List A) where
  -- Pages of an ordered list that reach its end are the list.
  walk-order_desc :
      (l n : ℕ)
      → length xs ≤ n * l
      → walk (λ i. limited l (i * l) (order_desc at_least xs)) n ≡ order_desc at_least xs
  walk-order_desc l n h =
      let len = length-order_desc at_least xs in
      walk-limited l n (order_desc at_least xs)
      ∙ take_all (n * l) (order_desc at_least xs) (omega arith)

leb_total : (m n : ℕ) → leb m n ≡ false → leb n m ≡ true
leb_total m n h = ground arith

-- The request for one page of `l` rows.
abbrev pub alert_page : ℕ → AlertFilterParams → ℕ → AlertFilterParams
alert_page l params i = record params { limit = some (pos l); offset = some (pos (i * l)) }

abbrev pub node_page : ℕ → NodeFilterParams → ℕ → NodeFilterParams
node_page l params i = record params { limit = some (pos l); offset = some (pos (i * l)) }

-- The rows of a listing are these, each as often, and descend.
module _ {ℓ} {A : Type ℓ} where
  abbrev pub Enumerates : (A → A → Bool) → List A → List A → Type ℓ
  Enumerates at_least wanted seen =
      ((test : A → Bool) → count test seen ≡ count test wanted) × Descends at_least seen

module _ (l n : ℕ) (positive : 1 ≤ l) (small : l ≤ 100) where
  list_alerts-Enumerates :
      (params : AlertFilterParams) (alerts : List NewAlertEntity)
      → total (list_alerts calm params alerts) ≤ n * l
      → Enumerates created_after
          (filter (alert_matches params) alerts)
          (walk (λ i. rows (list_alerts calm (alert_page l params i) alerts)) n)
  unfolding list_alerts
  list_alerts-Enumerates params alerts covers =
      let matching = filter (alert_matches params) alerts in
      rw (clamp_inside l 100 positive small, walk-order_desc created_after matching l n covers)
        (
          λ test. count-order_desc created_after test matching,
          Descends-order_desc created_after (λ x y. leb_total y.created_at x.created_at) matching,
        )

  list_nodes-Enumerates :
      (ilike : String → String → Bool) (params : NodeFilterParams) (nodes : List Node)
      → total (list_nodes ilike calm params nodes) ≤ n * l
      → Enumerates summary_after
          (map summary (filter (node_matches ilike params) nodes))
          (walk (λ i. rows (list_nodes ilike calm (node_page l params i) nodes)) n)
  unfolding list_nodes
  list_nodes-Enumerates ilike params nodes covers =
      let matching = filter (node_matches ilike params) nodes in
      rw
        (
          clamp_inside l 100 positive small,
          walk-map summary (λ i. limited l (i * l) (order_desc enrolled_after matching)) n,
          walk-order_desc enrolled_after matching l n covers,
        )
        (
          λ test.
              count-map test summary (order_desc enrolled_after matching)
              ∙ count-order_desc enrolled_after (λ x. test (summary x)) matching
              ∙ sym (count-map test summary matching),
          map-Descends summary_after summary (order_desc enrolled_after matching) (
              Descends-order_desc enrolled_after
                (λ x y. leb_total y.last_enrolled_at x.last_enrolled_at) matching),
        )

  -- A page shows nothing of the order in which the database reads the rows.
  alert_pages :
      (params : AlertFilterParams) (alerts : List NewAlertEntity) (read : ℕ → List NewAlertEntity)
      → ((i : ℕ) → Reordered (λ a. a.created_at) alerts (read i))
      → walk (λ i. rows (list_alerts calm (alert_page l params i) alerts)) n
        ≡ walk (λ i. rows (list_alerts calm (alert_page l params i) (read i))) n
  unfolding list_alerts
  alert_pages params alerts read same =
      walk-cong _ _
        (λ i. ap (limited (limit_of 50 100 (some (pos l))) (offset_of (some (pos (i * l))))) (
          order_desc-filter (λ (a : NewAlertEntity). a.created_at) (alert_matches params) (same i)))
        n

  node_pages :
      (ilike : String → String → Bool) (params : NodeFilterParams) (nodes : List Node)
      (read : ℕ → List Node)
      → ((i : ℕ) → Reordered (λ a. a.last_enrolled_at) nodes (read i))
      → walk (λ i. rows (list_nodes ilike calm (node_page l params i) nodes)) n
        ≡ walk (λ i. rows (list_nodes ilike calm (node_page l params i) (read i))) n
  unfolding list_nodes
  node_pages ilike params nodes read same =
      walk-cong _ _
        (λ i.
          ap
            (λ rows.
              map summary
                (limited (limit_of 50 100 (some (pos l))) (offset_of (some (pos (i * l)))) rows))
            (order_desc-filter (λ (a : Node). a.last_enrolled_at) (node_matches ilike params)
              (same i)))
        n

  -- Asking for the nodes, or for the alerts, of a filter page by page, in pages of 1 to 100 rows and
  -- until the pages cover the total of the first answer, while nothing fails and the table keeps its
  -- rows, which the database may read in another order for each page as long as rows with equal
  -- times (of the last enrolment, or of the creation) follow each other as before: the pages
  -- together are the matching rows, each as often as the table has it, from the one enrolled last,
  -- or the newest, on.
  pub listings-Enumerates :
      (ilike : String → String → Bool) (nodes_of : NodeFilterParams) (alerts_of : AlertFilterParams)
      (nodes : List Node) (alerts : List NewAlertEntity) (nodes_read : ℕ → List Node)
      (alerts_read : ℕ → List NewAlertEntity)
      → ((i : ℕ) → Reordered (λ a. a.last_enrolled_at) nodes (nodes_read i))
      → ((i : ℕ) → Reordered (λ a. a.created_at) alerts (alerts_read i))
      → total (list_nodes ilike calm nodes_of nodes) ≤ n * l
      → total (list_alerts calm alerts_of alerts) ≤ n * l
      → Enumerates summary_after
          (map summary (filter (node_matches ilike nodes_of) nodes))
          (walk (λ i. rows (list_nodes ilike calm (node_page l nodes_of i) (nodes_read i))) n)
        × Enumerates created_after
            (filter (alert_matches alerts_of) alerts)
            (walk (λ i. rows (list_alerts calm (alert_page l alerts_of i) (alerts_read i))) n)
  listings-Enumerates ilike nodes_of alerts_of nodes alerts nodes_read alerts_read sn sa h k = (
    subst (Enumerates summary_after (map summary (filter (node_matches ilike nodes_of) nodes)))
        (node_pages ilike nodes_of nodes nodes_read sn)
        (list_nodes-Enumerates ilike nodes_of nodes h),
    subst (Enumerates created_after (filter (alert_matches alerts_of) alerts))
        (alert_pages alerts_of alerts alerts_read sa) (list_alerts-Enumerates alerts_of alerts k),
  )

limit_of-bounded :
    (default most : ℕ) (limit : Option ℤ) → 1 ≤ most → limit_of default most limit ≤ most
limit_of-bounded default most limit h = ground arith

-- A page of a filtered table: not longer than the limit, and of matching rows.
page_bounds {ℓ} :
    {A : Type ℓ} (at_least : A → A → Bool) (keep : A → Bool) (limit offset : ℕ) (xs : List A)
    → let page = limited limit offset (order_desc at_least (filter keep xs)) in
      (length page ≤ limit) × All (λ x. keep x ≡ true) page
page_bounds at_least keep limit offset xs =
    let sorted = order_desc at_least (filter keep xs) in
    let len = length-take limit (drop offset sorted) in
    (
      omega arith,
      All-take (λ x. keep x ≡ true) limit (drop offset sorted)
          (All-drop (λ x. keep x ≡ true) offset sorted
            (All-order_desc (λ x. keep x ≡ true) at_least (filter keep xs) (filter-All keep xs))),
    )

-- Whether the pool and the statements work.
abbrev pub works : Outages → Bool
works out = not (is_some out.pool || is_some out.statement)

-- What holds of the answer, if there is one.
abbrev pub OnOk {ℓ κ} : {A : Type ℓ} → (A → Type κ) → Result AppError A → Type κ
OnOk P (ok a) = P a
OnOk P (err e) = Unit

guarded-works {ℓ κ} :
    {A : Type ℓ} (P : A → Type κ) (pool : Option String) (statement : Option DieselError) (a : A)
    → P a
    → (is_ok (guarded pool statement a) ≡ not (is_some pool || is_some statement))
      × OnOk P (guarded pool statement a)
guarded-works P (some e) statement a h = (refl, tt)
guarded-works P none (some e) a h = (refl, tt)
guarded-works P none none a h = (refl, h)

abbrev pub IsPage {ℓ} : {A : Type ℓ} → ℕ → (A → Bool) → List A → Type 0
IsPage most keep page = (length page ≤ most) × All (λ x. keep x ≡ true) page

-- Whatever the limit and the offset of a request: a listing answers just when its statements work,
-- and then with a page of rows that match the filter, of at most 100 alerts or 500 events; and the
-- total that comes with the alerts counts all alerts that match.
pub listings-IsPage :
    (out : Outages) (alerts_of : AlertFilterParams) (logs_of : LogFilterParams)
    (alerts : List NewAlertEntity) (logs : List NewEventLogEntity)
    → (is_ok (list_alerts out alerts_of alerts) ≡ works out)
      × OnOk
          (λ answer.
            IsPage 100 (alert_matches alerts_of) answer.0
            × (answer.1 ≡ length (filter (alert_matches alerts_of) alerts)))
          (list_alerts out alerts_of alerts)
      × (is_ok (search_logs out logs_of logs) ≡ works out)
      × OnOk (IsPage 500 (log_matches logs_of)) (search_logs out logs_of logs)
unfolding list_alerts search_logs
listings-IsPage out alerts_of logs_of alerts logs =
    let (a_short, a_match) =
      page_bounds created_after (alert_matches alerts_of) (limit_of 50 100 alerts_of.limit)
        (offset_of alerts_of.offset) alerts in
    let (l_short, l_match) =
      page_bounds logged_after (log_matches logs_of) (limit_of 100 500 logs_of.limit)
        (offset_of logs_of.offset) logs in
    let a_most = limit_of-bounded 50 100 alerts_of.limit (omega arith) in
    let l_most = limit_of-bounded 100 500 logs_of.limit (omega arith) in
    let (a_ok, a_page) =
      guarded-works
        (λ (answer : List NewAlertEntity × ℕ).
          IsPage 100 (alert_matches alerts_of) answer.0
          × (answer.1 ≡ length (filter (alert_matches alerts_of) alerts)))
        out.pool out.statement _ ((omega arith, a_match), refl) in
    let (l_ok, l_page) =
      guarded-works (IsPage 500 (log_matches logs_of)) out.pool out.statement _
        (omega arith, l_match) in
    (a_ok, a_page, l_ok, l_page)
