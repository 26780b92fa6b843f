-- ===== src/Pipeline/Delivery.antt =====
-- Which record a message becomes, and that routing a routed event again changes nothing.
use aigis_zero.Json.{Value, Bytes, Codec}
use aigis_zero.Pipeline.Normal.{route_topic-IsSettled, normalize-route_topic}
use aigis_zero.Pipeline.Records.{emitted, target}
use aigis_zero.Pipeline.Router.{
  FutureRecord, Message, dlq, dlq_headers, dlq_record, route_topic, event_type_of,
  normalized_category, normalize, outbound, forward_payload,
}
use aigis_zero.Prelude.{
  String, some, [], ok, ◌≡◌, refl, ◌∙◌, sym, inl, inr, str_eq, false, unwrap_or, Result-cases,
  Option-cases, ◌⊎◌,
}

-- A dead letter: the bytes as they came, with where they came from.
pub record IsDeadLetter (msg : Message) (r : FutureRecord) : Type 0 where
  pub topic : r.topic ≡ dlq
  pub payload : r.payload ≡ msg.payload
  pub reason : String
  pub headers : r.headers ≡ dlq_headers msg reason

-- A typed record: a parsed event with a topic, printed with the topic's category.
pub record IsTyped (codec : Codec) (msg : Message) (r : FutureRecord) : Type 0 where
  pub event : Value
  pub parsed : codec.from_slice msg.payload ≡ ok event
  pub classified : route_topic (event_type_of event) ≡ some r.topic
  pub not_dlq : str_eq r.topic dlq ≡ false
  pub payload :
      r.payload
      ≡ forward_payload codec
          (normalize (normalized_category r.topic (event_type_of event)) event)
          msg.payload
  pub headers : r.headers ≡ []

module _ (codec : Codec) (msg : Message) where
  outbound_typed :
      (event : Value) (t : String)
      → route_topic (event_type_of event) ≡ some t
      → outbound codec msg event (event_type_of event) t ≡ record {
        topic = t;
        payload =
            forward_payload codec
              (normalize (normalized_category t (event_type_of event)) event)
              msg.payload;
        key = unwrap_or msg.key [];
        headers = [];
      }
  unfolding outbound
  outbound_typed event t h = rw (route_topic-IsSettled (event_type_of event) t h).typed refl

  outbound_dead :
      (event : Value)
      → outbound codec msg event (event_type_of event) dlq
        ≡ dlq_record msg "Unclassified event type"
  unfolding outbound
  outbound_dead event = refl

  emitted_typed :
      (event : Value) (t : String)
      → codec.from_slice msg.payload ≡ ok event
      → route_topic (event_type_of event) ≡ some t
      → emitted codec msg ≡ record {
        topic = t;
        payload =
            forward_payload codec
              (normalize (normalized_category t (event_type_of event)) event)
              msg.payload;
        key = unwrap_or msg.key [];
        headers = [];
      }
  emitted_typed event t p h = rw (p, emitted) (rw (h, target) (outbound_typed event t h))

  -- Every message becomes one record with the message's key, and it is either a dead letter with
  -- the bytes as they came and their origin in the headers, or an event that was parsed and
  -- classified, under the topic of its type.
  pub emitted-IsDeadLetter-or-IsTyped :
      ((emitted codec msg).key ≡ unwrap_or msg.key [])
      × (IsDeadLetter msg (emitted codec msg) ⊎ IsTyped codec msg (emitted codec msg))
  emitted-IsDeadLetter-or-IsTyped = elim (Result-cases (codec.from_slice msg.payload)) [
    | inr (e, p) ↦
        rw (p, emitted)
          (
            refl,
            inl (record {
              topic = refl;
              payload = refl;
              reason = "Invalid JSON payload";
              headers = refl;
            }),
          )
    | inl (event, p) ↦ elim (Option-cases (route_topic (event_type_of event))) [
      | inl h ↦
          rw (p, emitted)
            (rw (h, target)
              (rw (outbound_dead event) (
                refl,
                inl (record {
                  topic = refl;
                  payload = refl;
                  reason = "Unclassified event type";
                  headers = refl;
                }),
              )))
      | inr (t, h) ↦ rw (emitted_typed event t p h) (
        refl,
        inr (record {
          event = event;
          parsed = p;
          classified = h;
          not_dlq = (route_topic-IsSettled (event_type_of event) t h).typed;
          payload = refl;
          headers = refl;
        }),
      )
    ]
  ]

forward_printed :
    (codec : Codec) (v : Value) (payload bytes : Bytes)
    → codec.to_vec v ≡ ok bytes
    → forward_payload codec v payload ≡ bytes
forward_printed codec v payload bytes h = rw (h, forward_payload) refl

-- If the bytes of a typed record parse to the event that was printed, then routing them again,
-- with the same key, gives the same record.
pub emitted_again :
    (codec : Codec) (msg : Message) (event : Value) (t : String) (bytes : Bytes)
    → codec.from_slice msg.payload ≡ ok event
    → route_topic (event_type_of event) ≡ some t
    → codec.to_vec (normalize (normalized_category t (event_type_of event)) event) ≡ ok bytes
    → codec.from_slice bytes ≡ ok (normalize (normalized_category t (event_type_of event)) event)
    → emitted codec (record msg { payload = bytes }) ≡ emitted codec msg
emitted_again codec msg event t bytes p h printed parsed =
    let v = normalize (normalized_category t (event_type_of event)) event in
    let (_, _, again, idem) = normalize-route_topic event t h in
    emitted_typed codec (record msg { payload = bytes }) v t parsed again
    ∙ rw (idem, forward_printed codec v bytes bytes printed)
        (sym (
          emitted_typed codec msg event t p h
          ∙ rw (forward_printed codec v msg.payload bytes printed) refl))
