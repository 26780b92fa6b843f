-- ===== src/Api/Listing.antt =====
-- The listings of api-backend/src/repositories (node_repo.rs, alert_repo.rs, log_repo.rs) with the
-- services over them. A table is a list of its rows in the order in which the database reads them,
-- which may be another one for each statement, and rows with equal times keep it. The matching of
-- `ILIKE` is a parameter. The numbers of a request are `i64`.
pub mod Order
pub mod Pages
mod Tests
use aigis_zero.Api.Errors.{AppError, from_pool, from_diesel, DieselError, missing}
use aigis_zero.Api.Events.{NewEventLogEntity}
use aigis_zero.Engine.Models.{Uuid, DateTime, NewAlertEntity}
use aigis_zero.Fleet.Database.{Node, NodeHealth, Db}
use Prim.Native.String
use aigis_zero.Prelude.{
  ℕ, String, Bool, true, false, ◌&&◌, ◌||◌, List, [], ◌∷◌, map, Option, none, some, Result, ok, err,
  ℤ, pos, negsuc, if◌then◌else◌, leb, ◌==◌, str_eq, unwrap_or, clamp, pos_part, length, take, drop,
}

module _ {ℓ} {A : Type ℓ} where
  -- `WHERE`
  unfoldable pub filter : (A → Bool) → List A → List A
  filter keep [] = []
  filter keep (x ∷ xs) = let rest = filter keep xs in if keep x then x ∷ rest else rest

  -- `ORDER BY key DESC`
  unfoldable pub insert_desc : (A → A → Bool) → A → List A → List A
  insert_desc at_least x [] = x ∷ []
  insert_desc at_least x (y ∷ ys) =
      let rest = insert_desc at_least x ys in if at_least x y then x ∷ y ∷ ys else y ∷ rest

  unfoldable pub order_desc : (A → A → Bool) → List A → List A
  order_desc at_least [] = []
  order_desc at_least (x ∷ xs) = insert_desc at_least x (order_desc at_least xs)

  -- `LIMIT` and `OFFSET`
  abbrev pub limited : ℕ → ℕ → List A → List A
  limited limit offset xs = take limit (drop offset xs)

-- `col.eq(v)`, if the filter is there.
abbrev pub eq_text : Option String → String → Bool
eq_text none s = true
eq_text (some v) s = str_eq s v

-- The same on a column that may be null.
abbrev pub eq_nullable : Option String → Option String → Bool
eq_nullable none s = true
eq_nullable (some v) none = false
eq_nullable (some v) (some s) = str_eq s v

abbrev pub eq_uuid : Option Uuid → Uuid → Bool
eq_uuid none id = true
eq_uuid (some v) id = id == v

-- Whether an integer is at most another.
abbrev pub leb_int : ℤ → ℤ → Bool
leb_int (pos m) (pos n) = leb m n
leb_int (pos m) (negsuc n) = false
leb_int (negsuc m) (pos n) = true
leb_int (negsuc m) (negsuc n) = leb n m

abbrev pub not_before : Option ℤ → ℤ → Bool
not_before none t = true
not_before (some from) t = leb_int from t

abbrev pub not_after : Option ℤ → ℤ → Bool
not_after none t = true
not_after (some to) t = leb_int t to

-- The limit and the offset of a request.
abbrev pub limit_of : ℕ → ℕ → Option ℤ → ℕ
limit_of default most limit = clamp (unwrap_or limit (pos default)) 1 most

abbrev pub offset_of : Option ℤ → ℕ
offset_of offset = pos_part (unwrap_or offset (pos 0))

-- What of one listing fails: the pool, or a statement with an error.
pub record Outages : Type 0 where
  pub pool : Option String
  pub statement : Option DieselError

abbrev pub guarded {ℓ} : {A : Type ℓ} → Option String → Option DieselError → A → Result AppError A
guarded (some e) statement a = err (from_pool e)
guarded none (some e) a = err (from_diesel e)
guarded none none a = ok a

abbrev pub run_query {ℓ} : {A : Type ℓ} → Outages → A → Result AppError A
run_query out a = guarded out.pool out.statement a

pub record NodeFilterParams : Type 0 where
  pub agent_status : Option String
  pub operator_status : Option String
  pub search : Option String
  pub limit : Option ℤ
  pub offset : Option ℤ

pub record NodeSummaryDto : Type 0 where
  pub node_id : Uuid
  pub machine_id : String
  pub hostname : String
  pub os_version : String
  pub agent_version : String
  pub agent_status : String
  pub operator_status : String
  pub first_seen_at : DateTime
  pub last_enrolled_at : DateTime

abbrev pub summary : Node → NodeSummaryDto
summary n = record {
  node_id = n.node_id;
  machine_id = n.machine_id;
  hostname = n.hostname;
  os_version = n.os_version;
  agent_version = n.agent_version;
  agent_status = n.agent_status;
  operator_status = n.operator_status;
  first_seen_at = n.first_seen_at;
  last_enrolled_at = n.last_enrolled_at;
}

abbrev pub enrolled_after : Node → Node → Bool
enrolled_after a b = leb b.last_enrolled_at a.last_enrolled_at

module _ (ilike : String → String → Bool) where
  abbrev pub searched : Option String → Node → Bool
  searched none n = true
  searched (some term) n =
      let pattern = String.◌++◌ "%" (String.◌++◌ term "%") in
      ilike n.hostname pattern || ilike n.machine_id pattern

  abbrev pub node_matches : NodeFilterParams → Node → Bool
  node_matches params n =
      eq_text params.agent_status n.agent_status
      && (eq_text params.operator_status n.operator_status && searched params.search n)

  -- `DieselNodeRepository::find_all`
  unfoldable pub list_nodes :
      Outages → NodeFilterParams → List Node → Result AppError (List NodeSummaryDto × ℕ)
  list_nodes out params nodes =
      let rows = filter (node_matches params) nodes in
      run_query out (
        map summary (
            limited (limit_of 50 100 params.limit) (offset_of params.offset)
              (order_desc enrolled_after rows)),
        length rows,
      )

-- `first`, of the rows that a filter keeps.
abbrev pub first {ℓ} : {A : Type ℓ} → List A → Option A
first [] = none
first (x ∷ xs) = some x

pub record NodeDetailDto : Type 0 where
  pub node : Node
  pub recent_health : List NodeHealth

abbrev pub recorded_after : NodeHealth → NodeHealth → Bool
recorded_after a b = leb b.recorded_at a.recorded_at

-- `find_by_id` of the repository, for the node that the first statement found.
abbrev pub detailed : Outages → Uuid → Db → Option Node → Result AppError (Option NodeDetailDto)
detailed out id db none = ok none
detailed out id db (some n) = run_query out (
    some (record {
      node = n;
      recent_health =
          take 20 (
            order_desc recorded_after
              (filter (λ (h : NodeHealth). h.node_id == id) db.node_health));
    }))

abbrev pub or_missing {ℓ} :
    {A : Type ℓ} → String → String → Result AppError (Option A) → Result AppError A
or_missing what id (err e) = err e
or_missing what id (ok none) = err (missing what id)
or_missing what id (ok (some a)) = ok a

abbrev pub and_detailed :
    Result AppError (Option Node) → Outages → Uuid → Db → Result AppError (Option NodeDetailDto)
and_detailed (err e) out id db = err e
and_detailed (ok found) out id db = detailed out id db found

-- `NodeService::get_node_by_id`; the second statement has its own outages, over the same connection.
unfoldable pub get_node_by_id :
    (Uuid → String) → Outages → Option DieselError → Uuid → Db → Result AppError NodeDetailDto
get_node_by_id show out second id db = or_missing "Node" (show id) (
    and_detailed (run_query out (first (filter (λ (n : Node). n.node_id == id) db.nodes)))
      (record { pool = none; statement = second }) id db)

pub record AlertFilterParams : Type 0 where
  pub severity : Option String
  pub status : Option String
  pub node_id : Option Uuid
  pub mitre_technique : Option String
  pub limit : Option ℤ
  pub offset : Option ℤ

abbrev pub alert_matches : AlertFilterParams → NewAlertEntity → Bool
alert_matches params a =
    eq_text params.severity a.severity
    && (eq_text params.status a.status
        && (eq_uuid params.node_id a.node_id
            && eq_nullable params.mitre_technique a.mitre_technique_id))

abbrev pub created_after : NewAlertEntity → NewAlertEntity → Bool
created_after a b = leb b.created_at a.created_at

-- `DieselAlertRepository::find_all`, on the table that the rule engine fills.
unfoldable pub list_alerts :
    Outages → AlertFilterParams → List NewAlertEntity → Result AppError (List NewAlertEntity × ℕ)
list_alerts out params alerts =
    let rows = filter (alert_matches params) alerts in
    run_query out (
      limited (limit_of 50 100 params.limit) (offset_of params.offset)
          (order_desc created_after rows),
      length rows,
    )

-- `AlertService::get_alert_by_id`
unfoldable pub get_alert_by_id :
    (Uuid → String) → Outages → Uuid → List NewAlertEntity → Result AppError NewAlertEntity
get_alert_by_id show out id alerts =
    or_missing "Alert" (show id)
      (run_query out (first (filter (λ (a : NewAlertEntity). a.alert_id == id) alerts)))

pub record LogFilterParams : Type 0 where
  pub node_id : Option Uuid
  pub event_type : Option String
  pub from_timestamp : Option ℤ
  pub to_timestamp : Option ℤ
  pub limit : Option ℤ
  pub offset : Option ℤ

abbrev pub log_matches : LogFilterParams → NewEventLogEntity → Bool
log_matches params l =
    eq_uuid params.node_id l.node_id
    && (eq_text params.event_type l.event_type
        && (not_before params.from_timestamp l.recorded_at
            && not_after params.to_timestamp l.recorded_at))

abbrev pub logged_after : NewEventLogEntity → NewEventLogEntity → Bool
logged_after a b = leb_int b.recorded_at a.recorded_at

-- `DieselLogRepository::search_logs`
unfoldable pub search_logs :
    Outages → LogFilterParams → List NewEventLogEntity → Result AppError (List NewEventLogEntity)
search_logs out params logs = run_query out (
    limited (limit_of 100 500 params.limit) (offset_of params.offset)
      (order_desc logged_after (filter (log_matches params) logs)))

-- `LogService::get_log_by_id`
unfoldable pub get_log_by_id :
    (Uuid → String) → Outages → Uuid → List NewEventLogEntity → Result AppError NewEventLogEntity
get_log_by_id show out id logs =
    or_missing "Log event" (show id)
      (run_query out (first (filter (λ (l : NewEventLogEntity). l.event_id == id) logs)))
