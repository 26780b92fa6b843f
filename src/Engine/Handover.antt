-- ===== src/Engine/Handover.antt =====
-- That the consumer commits a message only once it is in the scanner's channel or a dead letter.
use aigis_zero.Engine.Consumer.{
  Message, Poll, cancelled, message, stream_error, ended, DeadLetter, TelemetryConsumer, offer,
  poison_pill, handed_on, parsed, handle_payload, handle_message, run,
}
use aigis_zero.Engine.Models.{TelemetryEvent}
use aigis_zero.Json.{Bytes}
use aigis_zero.Prelude.{
  ℕ, zero, suc, String, List, [], ◌∷◌, ◌++◌, map, Option, none, some, unwrap_or, Result, ok, err,
  concat, ◌≡◌, refl, sym, subst, ap, ◌∙◌, append-nil, append_assoc, if_elim,
}

concat-map-snoc :
    {A B : Type 0} (f : A → List B) (xs : List A) (x : A)
    → concat (map f (xs ++ x ∷ [])) ≡ concat (map f xs) ++ f x
concat-map-snoc f [] x = append-nil (f x)
concat-map-snoc f (y ∷ xs) x =
    ap (◌++◌ (f y)) (concat-map-snoc f xs x) ∙ sym (append_assoc (f y) (concat (map f xs)) (f x))

module _ (parse : Bytes → Result String TelemetryEvent) (dlq_topic : String) where
  abbrev pub payload_of : Message → Bytes
  payload_of msg = unwrap_or msg.payload []

  -- What of one message goes to the channel, and to the dead letters.
  abbrev pub event_in : Result String TelemetryEvent → List TelemetryEvent
  event_in (ok e) = e ∷ []
  event_in (err m) = []

  abbrev pub letter_in : Message → Result String TelemetryEvent → List DeadLetter
  letter_in msg (ok e) = []
  letter_in msg (err m) = poison_pill parse dlq_topic msg (payload_of msg) m ∷ []

  abbrev pub events_of : Message → List TelemetryEvent
  events_of msg = event_in (parse (payload_of msg))

  abbrev pub letters_of : Message → List DeadLetter
  letters_of msg = letter_in msg (parse (payload_of msg))

  -- The channel and the dead letters are those of the committed messages, in order.
  pub record IsHanded (s : TelemetryConsumer) : Type 0 where
    pub channel : s.channel ≡ concat (map events_of s.committed)
    pub dead : s.dead ≡ concat (map letters_of s.committed)

  abbrev extended : Message → Result String TelemetryEvent → TelemetryConsumer → TelemetryConsumer
  extended msg r s = record s {
    channel = s.channel ++ event_in r;
    dead = s.dead ++ letter_in msg r;
    committed = s.committed ++ msg ∷ [];
  }

  extended-IsHanded :
      (msg : Message) (s : TelemetryConsumer)
      → IsHanded s
      → IsHanded (extended msg (parse (payload_of msg)) s)
  extended-IsHanded msg s h = record {
    channel =
        ap (λ c. c ++ events_of msg) h.channel ∙ sym (concat-map-snoc events_of s.committed msg);
    dead = ap (λ c. c ++ letters_of msg) h.dead ∙ sym (concat-map-snoc letters_of s.committed msg);
  }

  -- Whether the channel is open or not, an event is both in it and committed, or neither.
  accepted-IsHanded :
      (msg : Message) (e : TelemetryEvent) (closes : Option ℕ) (s : TelemetryConsumer)
      → IsHanded s
      → IsHanded (extended msg (ok e) s)
      → IsHanded (handed_on parse dlq_topic msg (offer closes e s) s).0
  accepted-IsHanded msg e none s h k = record {
    channel = k.channel;
    dead = sym (append-nil s.dead) ∙ k.dead;
  }
  accepted-IsHanded msg e (some zero) s h k = h
  accepted-IsHanded msg e (some (suc n)) s h k = record {
    channel = k.channel;
    dead = sym (append-nil s.dead) ∙ k.dead;
  }

  parsed-IsHanded :
      (msg : Message) (r : Result String TelemetryEvent) (s : TelemetryConsumer)
      → IsHanded s
      → IsHanded (extended msg r s)
      → IsHanded (parsed parse dlq_topic msg (payload_of msg) r s).0
  parsed-IsHanded msg (ok e) s h k = accepted-IsHanded msg e s.closes_after s h k
  parsed-IsHanded msg (err m) s h k = record {
    channel = sym (append-nil s.channel) ∙ k.channel;
    dead = k.dead;
  }

  handle_payload-IsHanded :
      (msg : Message) (payload : Bytes) (s : TelemetryConsumer)
      → payload_of msg ≡ payload
      → IsHanded s
      → IsHanded (handle_payload parse dlq_topic msg payload s).0
  handle_payload-IsHanded msg [] s q h = h
  handle_payload-IsHanded msg (b ∷ payload) s q h =
      subst (λ p. IsHanded (parsed parse dlq_topic msg p (parse p) s).0) q
        (parsed-IsHanded msg (parse (payload_of msg)) s h (extended-IsHanded msg s h))

  -- Any run of polls keeps it so that the scanner's channel holds the events of exactly the committed
  -- messages, in order, and the dead letters are those of the committed messages that are no
  -- events, with their original bytes and position; a message that met a closed channel is not
  -- committed.
  pub run-IsHanded :
      (polls : List Poll) (s : TelemetryConsumer)
      → IsHanded s
      → IsHanded (run parse dlq_topic polls s)
  unfolding run
  run-IsHanded [] s h = h
  run-IsHanded (cancelled ∷ polls) s h = h
  run-IsHanded (message msg ∷ polls) s h =
      let r = handle_message parse dlq_topic msg s in
      let k = handle_payload-IsHanded msg (payload_of msg) s refl h in
      if_elim IsHanded r.1 (run-IsHanded polls r.0 k) k
  run-IsHanded (stream_error ∷ polls) s h = run-IsHanded polls s h
  run-IsHanded (ended ∷ polls) s h = h
