-- ===== src/Agent/Drain/Sending.antt =====
-- What `send_events` puts on the channel.
use aigis_zero.Agent.Drain.{AgentEvent, EventAck, Outbound, send, proto_of, send_loop, send_events}
use aigis_zero.Json.{Value, Codec}
use aigis_zero.Prelude.{
  ℕ, zero, suc, ◌-◌, ◌<◌, String, true, List, [], ◌∷◌, ◌++◌, Option, none, some, Result, ok, err,
  ◌≡◌, refl, ap, ◌∙◌, sym, arith, append-nil, append-snoc, length, take, inl, inr, ◌⊎◌,
  Option-cases, ltb, if◌then◌else◌, Bool-cases, min, ap₂,
}

abbrev pub acked : Result String EventAck
acked = ok (record { success = true; error = none })

abbrev pub channel : List AgentEvent → Option ℕ → Outbound
channel s c = record { sent = s; closes_after = c }

-- The sends of a loop without the skipped values.
unfoldable pub send_each : List AgentEvent → Outbound → Outbound × Result String EventAck
send_each [] tx = (tx, acked)
send_each (e ∷ es) tx = elim (send e tx) [
  | none ↦ (tx, err "Send channel closed")
  | some tx' ↦ send_each es tx'
]

module _ (codec : Codec) where
  -- The events of a batch whose payload can be printed, as they go out.
  unfoldable pub protos : List Value → List AgentEvent
  protos [] = []
  protos (v ∷ vs) = elim (proto_of codec v) [ none ↦ protos vs | some e ↦ e ∷ protos vs ]

  send_loop-send_each :
      (vals : List Value) (tx : Outbound) → send_loop codec vals tx ≡ send_each (protos vals) tx
  unfolding send_loop protos send_each
  send_loop-send_each [] tx = refl
  send_loop-send_each (v ∷ vs) tx = elim (Option-cases (proto_of codec v)) [
    | inl skipped ↦ rw (skipped, send_loop, protos) (send_loop-send_each vs tx)
    | inr (e, printed) ↦ elim (Option-cases (send e tx)) [
      | inl closed ↦ rw (printed, send_loop, protos) (rw (closed, send_each) refl)
      | inr (tx', sent) ↦
          rw (printed, send_loop, protos) (rw (sent, send_each) (send_loop-send_each vs tx'))
    ]
  ]

-- How many of `n` sends pass.
abbrev pub passes : Option ℕ → ℕ → ℕ
passes none n = n
passes (some k) n = min k n

abbrev pub left_open : Option ℕ → ℕ → Option ℕ
left_open none n = none
left_open (some k) n = some (k - n)

abbrev pub verdict : Option ℕ → ℕ → Result String EventAck
verdict none n = acked
verdict (some k) n = if ltb k n then err "Send channel closed" else acked

take_all : (es : List AgentEvent) → take (length es) es ≡ es
take_all [] = refl
take_all (e ∷ es) = ap (◌∷◌ e) (take_all es)

min-suc : (k n : ℕ) → min (suc k) (suc n) ≡ suc (min k n)
min-suc k n = omega arith

sub_suc : (k n : ℕ) → suc k - suc n ≡ k - n
sub_suc k n = omega arith

min_zero_left : (n : ℕ) → min 0 n ≡ 0
min_zero_left n = omega arith

min_zero_right : (k : ℕ) → min k 0 ≡ 0
min_zero_right k = omega arith

verdict-suc : (k n : ℕ) → verdict (some (suc k)) (suc n) ≡ verdict (some k) n
verdict-suc k n = ground arith

verdict_nil : (k : ℕ) → verdict (some k) 0 ≡ acked
verdict_nil k = ground arith

verdict_short : (k n : ℕ) → k < n → verdict (some k) n ≡ err "Send channel closed"
verdict_short k n h = ground arith

-- The loop puts as many events on the channel as pass before it closes, from the first on, and its
-- result tells whether that was all of them.
send_each_lem :
    (es s : List AgentEvent) (c : Option ℕ)
    → send_each es (channel s c) ≡ (
      channel (s ++ take (passes c (length es)) es) (left_open c (length es)),
      verdict c (length es),
    )
unfolding send_each
send_each_lem [] s none = rw (append-nil s) refl
send_each_lem [] s (some k) =
    rw (min_zero_right k, append-nil s, verdict_nil k)
      (ap (λ j. (channel s (some j), acked)) (omega arith))
send_each_lem (e ∷ es) s none = rw (send_each_lem es (s ++ e ∷ []) none, append-snoc) refl
send_each_lem (e ∷ es) s (some zero) =
    rw (min_zero_left (suc (length es)), append-nil s)
      (ap₂ (λ j r. (channel s (some j), r)) (omega arith)
        (sym (verdict_short 0 (suc (length es)) (omega arith))))
send_each_lem (e ∷ es) s (some (suc k)) =
    send_each_lem es (s ++ e ∷ []) (some k)
    ∙ rw (min-suc k (length es), sub_suc k (length es), verdict-suc k (length es), append-snoc) refl

-- `send_events` on a connected client puts the printable events of the batch on the channel, in
-- order, up to the point where the channel closes; it acknowledges the batch if that is all of
-- them, and fails otherwise. Before `connect` it fails and sends nothing.
pub send_events_lem :
    (codec : Codec) (vals : List Value) (s : List AgentEvent) (c : Option ℕ)
    → (send_events codec vals (some (channel s c)) ≡ (
      some (
          channel
            (s ++ take (passes c (length (protos codec vals))) (protos codec vals))
            (left_open c (length (protos codec vals)))),
      verdict c (length (protos codec vals)),
    ))
      × (send_events codec vals none ≡ (none, err "Stream not connected"))
unfolding send_events
send_events_lem codec vals s c = (
  rw (send_loop-send_each codec vals (channel s c), send_each_lem (protos codec vals) s c) refl,
  refl,
)

verdict-cases :
    (c : Option ℕ) (n : ℕ) → (verdict c n ≡ acked) ⊎ ((e : String) × (verdict c n ≡ err e))
verdict-cases none n = inl refl
verdict-cases (some k) n = elim (Bool-cases (ltb k n)) [
  | inl short ↦ inr ("Send channel closed", rw short refl)
  | inr long ↦ inl (rw long refl)
]

-- An answer is a positive acknowledgement or an error.
pub send_events-cases :
    (codec : Codec) (vals : List Value) (tx : Option Outbound)
    → ((send_events codec vals tx).1 ≡ acked)
      ⊎ ((e : String) × ((send_events codec vals tx).1 ≡ err e))
unfolding send_events
send_events-cases codec vals none = inr ("Stream not connected", refl)
send_events-cases codec vals (some tx) =
    rw
      (ap (λ p. p.1)
        ((send_loop-send_each codec vals tx)
          ∙ send_each_lem (protos codec vals) tx.sent tx.closes_after))
      (verdict-cases tx.closes_after (length (protos codec vals)))
