-- ===== src/Agent/Drain/Retry.antt =====
-- What a tick of the drain loop leaves in the buffer.
use aigis_zero.Agent.Buffer.{EventBuffer, push, drain}
use aigis_zero.Agent.Buffer.Queue.{contents, no_faults, push-enqueue, drain-take}
use aigis_zero.Agent.Buffer.Rows.{IsKeyed}
use aigis_zero.Agent.Drain.{
  EventAck, Push, push_all, Conditions, requeued, settle, Tick, send_events, parse_events,
  send_batch, after_drain, drain_tick,
}
use aigis_zero.Agent.Drain.Sending.{acked, send_events-cases}
use aigis_zero.Json.{Value, Codec}
use aigis_zero.Prelude.{
  ℕ, suc, ◌+◌, ◌-◌, ◌^◌, ◌≤◌, ◌<◌, String, false, List, [], ◌∷◌, ◌++◌, Result, err, ◌≡◌, refl, ap,
  ◌∙◌, sym, arith, append-nil, append-snoc, length, length-append, length-map, map, take, drop, inl,
  inr, ◌⊎◌, All, drop-zero_of_length, is_ok, if◌then◌else◌, length-take, length-drop,
}

abbrev pub json_of : Push → String
json_of p = p.json

abbrev pub IsClean : Push → Type 0
IsClean p = p.faults ≡ no_faults

-- Pushes that meet no fault and fit under the cap append their events.
pub push_all-contents :
    (ps : List Push) (b : EventBuffer)
    → IsKeyed b
    → b.max_events < 2 ^ 63
    → All IsClean ps
    → length (contents b) + length ps ≤ b.max_events
    → (contents (push_all ps b) ≡ contents b ++ map json_of ps)
      × IsKeyed (push_all ps b)
      × ((push_all ps b).max_events ≡ b.max_events)
unfolding push_all
push_all-contents [] b h small clean fits = (sym (append-nil (contents b)), h, refl)
push_all-contents (p ∷ ps) b h small clean fits =
    let b' = (push no_faults p.now p.json b).0 in
    let (_, view, keyed, cap) = push-enqueue p.now p.json b h small in
    let q = contents b ++ p.json ∷ [] in
    let len : length q ≡ length (contents b) + 1 = length-append (contents b) (p.json ∷ []) in
    let all : contents b' ≡ q =
      view ∙ drop-zero_of_length (length q - b.max_events) q (omega arith) in
    let len' = ap length all ∙ len in
    let (ih, keyed', cap') = push_all-contents ps b' keyed (omega arith) clean.1 (omega arith) in
    rw clean.0 (
      ih ∙ ap (λ c. c ++ map json_of ps) all ∙ append-snoc (contents b) p.json (map json_of ps),
      keyed',
      cap' ∙ cap,
    )

module _ (c : Conditions) (calm : (i : ℕ) → (c i).0 ≡ no_faults) where
  requeued-IsClean : (i : ℕ) (es : List String) → All IsClean (requeued c i es)
  requeued-IsClean i [] = tt
  requeued-IsClean i (e ∷ es) = (calm i, requeued-IsClean (suc i) es)

  map-requeued : (i : ℕ) (es : List String) → map json_of (requeued c i es) ≡ es
  map-requeued i [] = refl
  map-requeued i (e ∷ es) = ap (◌∷◌ e) (map-requeued (suc i) es)

  length-requeued : (i : ℕ) (es : List String) → length (requeued c i es) ≡ length es
  length-requeued i [] = refl
  length-requeued i (e ∷ es) = ap suc (length-requeued (suc i) es)

  -- After the answer: an acknowledged batch is gone, another is back at the end.
  settle-contents :
      (events : List String) (r : Result String EventAck) (b : EventBuffer)
      → IsKeyed b
      → b.max_events < 2 ^ 63
      → length (contents b) + length events ≤ b.max_events
      → (r ≡ acked) ⊎ ((e : String) × (r ≡ err e))
      → contents (settle c events r b) ≡ contents b ++ (if is_ok r then [] else events)
  unfolding settle
  settle-contents events r b h small fits (inl e) = rw e (sym (append-nil (contents b)))
  settle-contents events r b h small fits (inr (m, e)) = rw e (
      (push_all-contents (requeued c 0 events) b h small (requeued-IsClean 0 events)
        (rw (length-requeued 0 events) fits)).0
      ∙ ap (λ x. contents b ++ x) (map-requeued 0 events))

  -- A tick whose batch holds a parsed event, with no fault in the table and room for what the other
  -- task pushes meanwhile: an acknowledged batch is gone from the buffer, and any other is back,
  -- whole, behind what was pushed meanwhile.
  pub drain_tick-contents :
      (codec : Codec) (between : List Push) (n : ℕ) (s : Tick) (v : Value) (vs : List Value)
      → IsKeyed s.buffer
      → s.buffer.max_events < 2 ^ 63
      → n < 2 ^ 63
      → All IsClean between
      → length (contents s.buffer) + length between ≤ s.buffer.max_events
      → parse_events codec (take n (contents s.buffer)) ≡ v ∷ vs
      → contents (drain_tick codec c between false n s).buffer
        ≡ (drop n (contents s.buffer) ++ map json_of between)
          ++ (if is_ok (send_events codec (v ∷ vs) s.outbound).1
              then []
              else take n (contents s.buffer))
  unfolding drain_tick send_batch
  drain_tick-contents codec between n s v vs h small fits clean room parsed =
      let q = contents s.buffer in
      let b = (drain false n s.buffer).0 in
      let (taken, left, keyed, cap) = drain-take n s.buffer h fits in
      let len_left = ap length left ∙ length-drop n q in
      let (mid, keyed', cap') =
        push_all-contents between b keyed (omega arith) clean (omega arith) in
      let len_mid = ap length mid ∙ length-append (contents b) (map json_of between) in
      let len_js = length-map json_of between in
      let len_taken = length-take n q in
      let done =
        settle-contents (take n q) (send_events codec (v ∷ vs) s.outbound).1 (push_all between b)
          keyed' (omega arith) (omega arith) (send_events-cases codec (v ∷ vs) s.outbound) in
      rw (taken, after_drain)
        (rw (parsed, send_batch)
          (done
            ∙ ap
                (λ m.
                  m ++ (if is_ok (send_events codec (v ∷ vs) s.outbound).1 then [] else take n q))
                (mid ∙ ap (λ m. m ++ map json_of between) left)))
