-- ===== src/Pipeline/Normal.antt =====
-- What a typed topic carries: events whose type is the topic's category, on which the router and
-- the rule engine's scanner agree.
use aigis_zero.Engine.Category.{category, process_arm, network_arm, file_arm, auth_arm}
use aigis_zero.Engine.Models.{TelemetryEvent}
use aigis_zero.Json.{
  Value, null, bool, number, string, array, object, Fields, get, get_field, insert,
}
use aigis_zero.Json.Laws.{get_field-insert, insert_idem}
use aigis_zero.Pipeline.Router.{
  process_types, network_types, file_types, auth_types, route_topic, event_type_of,
  normalized_category, normalize, dlq,
}
use aigis_zero.Prelude.{
  String, some, ◌≡◌, refl, ap, ◌∙◌, inl, inr, arith, true, false, Bool-cases, one_of, one_of-congr,
  all_one_of, str_eq, eq_iff, sym, ◌≢◌,
}

-- The arm of `route_topic` that gives a topic.
pub data Arm (s t : String) : Type 0 where
  process : one_of process_types s ≡ true → t ≡ "aigis.events.process" → Arm s t
  network :
      one_of process_types s ≡ false
      → one_of network_types s ≡ true
      → t ≡ "aigis.events.network"
      → Arm s t
  file :
      one_of process_types s ≡ false
      → one_of network_types s ≡ false
      → one_of file_types s ≡ true
      → t ≡ "aigis.events.file"
      → Arm s t
  auth :
      one_of process_types s ≡ false
      → one_of network_types s ≡ false
      → one_of file_types s ≡ false
      → one_of auth_types s ≡ true
      → t ≡ "aigis.events.auth"
      → Arm s t

pub route_topic-Arm : (s t : String) → route_topic s ≡ some t → Arm s t
unfolding route_topic
route_topic-Arm s t h = elim (Bool-cases (one_of process_types s)) [
  | inl e ↦ process e (ground arith)
  | inr e ↦ elim (Bool-cases (one_of network_types s)) [
    | inl e' ↦ network e e' (ground arith)
    | inr e' ↦ elim (Bool-cases (one_of file_types s)) [
      | inl e'' ↦ file e e' e'' (ground arith)
      | inr e'' ↦ elim (Bool-cases (one_of auth_types s)) [
        | inl e3 ↦ auth e e' e'' e3 (ground arith)
        | inr e3 ↦ absurd (ground arith)
      ]
    ]
  ]
]

-- A category is routed to its own topic, is its own category, and is not "osquery".
pub record IsSettled (t c : String) : Type 0 where
  pub routed : route_topic c ≡ some t
  pub kept : normalized_category t c ≡ c
  pub plain : str_eq c "osquery" ≡ false
  pub typed : str_eq t dlq ≡ false

pub route_topic-IsSettled :
    (s t : String) → route_topic s ≡ some t → IsSettled t (normalized_category t s)
unfolding route_topic normalized_category one_of
route_topic-IsSettled s t h = elim (route_topic-Arm s t h) [
  | process _ e ↦ rw e (record { routed = refl; kept = refl; plain = refl; typed = refl })
  | network _ _ e ↦ rw e (record { routed = refl; kept = refl; plain = refl; typed = refl })
  | file _ _ _ e ↦ rw e (record { routed = refl; kept = refl; plain = refl; typed = refl })
  | auth _ _ _ _ e ↦ rw e (record { routed = refl; kept = refl; plain = refl; typed = refl })
]

-- An event that is routed to a typed topic is a JSON object.
pub object_of_route :
    (event : Value) (t : String)
    → route_topic (event_type_of event) ≡ some t
    → (fs : Fields) × (event ≡ object fs)
unfolding event_type_of get route_topic one_of
object_of_route (object fs) t h = (fs, refl)
object_of_route null t h = cc
object_of_route (bool b) t h = cc
object_of_route (number n) t h = cc
object_of_route (string s) t h = cc
object_of_route (array vs) t h = cc

-- The scanner's arms and the router's list the same event types, in another order.
same_process : (s : String) → one_of process_types s ≡ one_of process_arm s
unfolding all_one_of one_of
same_process s = one_of-congr process_types process_arm s refl refl

same_network : (s : String) → one_of network_types s ≡ one_of network_arm s
unfolding all_one_of one_of
same_network s = one_of-congr network_types network_arm s refl refl

same_file : (s : String) → one_of file_types s ≡ one_of file_arm s
unfolding all_one_of one_of
same_file s = one_of-congr file_types file_arm s refl refl

same_auth : (s : String) → one_of auth_types s ≡ one_of auth_arm s
unfolding all_one_of one_of
same_auth s = one_of-congr auth_types auth_arm s refl refl

category-first :
    (e : TelemetryEvent) (t : String)
    → Arm e.event_type t
    → category e ≡ normalized_category t e.event_type
unfolding category normalized_category
category-first e t (process a d) = rw (d, sym (same_process e.event_type) ∙ a) refl
category-first e t (network a b d) =
    rw (d, sym (same_process e.event_type) ∙ a, sym (same_network e.event_type) ∙ b) refl
category-first e t (file a b c d) =
    rw
      (
        d,
        sym (same_process e.event_type) ∙ a,
        sym (same_network e.event_type) ∙ b,
        sym (same_file e.event_type) ∙ c,
      )
      refl
category-first e t (auth a b c f d) =
    rw
      (
        d,
        sym (same_process e.event_type) ∙ a,
        sym (same_network e.event_type) ∙ b,
        sym (same_file e.event_type) ∙ c,
        sym (same_auth e.event_type) ∙ f,
      )
      refl

category-settled :
    (e : TelemetryEvent) (s t : String)
    → Arm s t
    → category (record e { event_type = normalized_category t s }) ≡ normalized_category t s
unfolding category normalized_category one_of
category-settled e s t (process a d) = rw d refl
category-settled e s t (network a b d) = rw d refl
category-settled e s t (file a b c d) = rw d refl
category-settled e s t (auth a b c f d) = rw d refl

-- If the router has a topic for an event's type, then the scanner takes the rules of that topic's
-- category, whether the event carries its first type or the one that the router wrote over it.
pub category-route_topic :
    (e : TelemetryEvent) (t : String)
    → route_topic e.event_type ≡ some t
    → (category e ≡ normalized_category t e.event_type)
      × (category (record e { event_type = normalized_category t e.event_type })
          ≡ normalized_category t e.event_type)
category-route_topic e t h =
    let arm = route_topic-Arm e.event_type t h in
    (category-first e t arm, category-settled e e.event_type t arm)

found_type :
    (c : String) (fs : Fields)
    → get_field "event_type" (insert "event_type" (string c) fs) ≡ some (string c)
found_type c fs = get_field-insert "event_type" "event_type" (string c) fs

event_type_of-normalize :
    (c : String) (fs : Fields)
    → str_eq c "osquery" ≡ false
    → event_type_of (object (insert "event_type" (string c) fs)) ≡ c
unfolding event_type_of get
event_type_of-normalize c fs plain = rw (found_type c fs, event_type_of) (rw plain refl)

other_fields :
    (k c : String) (fs : Fields)
    → k ≢ "event_type"
    → get_field k (insert "event_type" (string c) fs) ≡ get_field k fs
other_fields k c fs ne =
    get_field-insert "event_type" k (string c) fs ∙ ground (arith, eq_iff "event_type" k)

-- What `normalize-route_topic` says of an object.
normalize_object :
    (fs : Fields) (t c : String)
    → IsSettled t c
    → let v = object (insert "event_type" (string c) fs) in
      (get "event_type" v ≡ some (string c))
      × ((k : String) → k ≢ "event_type" → get k v ≡ get k (object fs))
      × (route_topic (event_type_of v) ≡ some t)
      × (normalize (normalized_category t (event_type_of v)) v ≡ v)
unfolding get
normalize_object fs t c s =
    let same = event_type_of-normalize c fs s.plain in
    (
      found_type c fs,
      λ k ne. other_fields k c fs ne,
      rw same s.routed,
      rw (same, s.kept) (ap object (insert_idem "event_type" (string c) fs)),
    )

-- An event that the router sends to a typed topic leaves with the topic's category as its type and
-- every other field as it was; the router would send it to the same topic again, unchanged.
pub normalize-route_topic :
    (event : Value) (t : String)
    → route_topic (event_type_of event) ≡ some t
    → let c = normalized_category t (event_type_of event) in
      (get "event_type" (normalize c event) ≡ some (string c))
      × ((k : String) → k ≢ "event_type" → get k (normalize c event) ≡ get k event)
      × (route_topic (event_type_of (normalize c event)) ≡ some t)
      × (normalize (normalized_category t (event_type_of (normalize c event))) (normalize c event)
          ≡ normalize c event)
normalize-route_topic event t h =
    let (fs, e) = object_of_route event t h in
    let s = route_topic-IsSettled (event_type_of event) t h in
    rw e (normalize_object fs t (normalized_category t (event_type_of (object fs))) (rw e at s))
