-- ===== src/Agent/Collect/Shutdown.antt =====
-- What the buffer holds after the shutdown of the buffering task.
use aigis_zero.Agent.Buffer.{EventBuffer}
use aigis_zero.Agent.Buffer.Queue.{contents, no_faults, keep_last, enqueue, push-enqueue}
use aigis_zero.Agent.Buffer.Rows.{IsKeyed}
use aigis_zero.Agent.Collect.{
  OsqueryResult, AgentEvent, Arrival, Turn, received, cancelled, encode_osquery_result, push_json,
  buffer_one, drain_channel, collect,
}
use aigis_zero.Json.{Value}
use aigis_zero.Prelude.{
  ℕ, ◌+◌, ◌-◌, ◌^◌, ◌≤◌, ◌<◌, String, List, [], ◌∷◌, ◌++◌, Option, none, some, ◌≡◌, refl, ap, ◌∙◌,
  sym, arith, append-nil, append_assoc, length, length-append, length-drop, drop, subst, drop-drop,
  drop-append, drop-zero_of_length, All,
}

-- Forgetting early what is over the cap makes no difference.
keep_last-append :
    (n : ℕ) (q js : List String) → keep_last n (keep_last n q ++ js) ≡ keep_last n (q ++ js)
keep_last-append n q js =
    let d = length q - n in
    let inner : drop d q ++ js ≡ drop d (q ++ js) = sym (drop-append d q js (omega arith)) in
    let len = length-append q js in
    let len' = length-append (drop d q) js ∙ ap (λ k. k + length js) (length-drop d q) in
    let total : d + (length (drop d q ++ js) - n) ≡ length (q ++ js) - n = omega arith in
    ap (drop (length (drop d q ++ js) - n)) inner
    ∙ drop-drop (length (drop d q ++ js) - n) d (q ++ js)
    ∙ ap (λ k. drop k (q ++ js)) total

keep_last_all : (n : ℕ) (q : List String) → length q ≤ n → keep_last n q ≡ q
keep_last_all n q fits = drop-zero_of_length (length q - n) q (omega arith)

abbrev pub IsClean : Arrival → Type 0
IsClean a = a.faults ≡ no_faults

-- The results that arrive, and then the shutdown with what waits in the channel.
abbrev pub shut_down : List Arrival → List Arrival → List Turn → List Turn
shut_down [] waiting later = cancelled waiting ∷ later
shut_down (a ∷ arrivals) waiting later = received a ∷ shut_down arrivals waiting later

-- The buffer in key order, with so much under its cap.
record Holds (cap : ℕ) (q : List String) (b : EventBuffer) : Type 0 where
  pub view : contents b ≡ keep_last cap q
  pub keyed : IsKeyed b
  pub cap_of : b.max_events ≡ cap

module _ (to_value : OsqueryResult → Option Value) (to_string : AgentEvent → Option String) where
  abbrev json_of : Option String → List String
  json_of none = []
  json_of (some json) = json ∷ []

  -- The JSON texts of the results that can be printed, in order.
  unfoldable pub jsons : List Arrival → List String
  jsons [] = []
  jsons (a ∷ arrivals) =
      json_of (encode_osquery_result to_value to_string a.sequence_id a.result) ++ jsons arrivals

  module _ (cap : ℕ) (small : cap < 2 ^ 63) where
    push_json-Holds :
        (a : Arrival) (json : Option String) (q : List String) (b : EventBuffer)
        → IsClean a
        → Holds cap q b
        → Holds cap (q ++ json_of json) (push_json to_value to_string a json b)
    push_json-Holds a none q b clean h = rw (append-nil q) h
    push_json-Holds a (some json) q b clean h =
        let c = h.cap_of in
        let (_, view, keyed, same) = push-enqueue a.now json b h.keyed (omega arith) in
        rw clean record {
          view =
              view
              ∙ ap (λ n. enqueue n json (contents b)) c
              ∙ ap (enqueue cap json) h.view
              ∙ keep_last-append cap q (json ∷ []);
          keyed = keyed;
          cap_of = same ∙ c;
        }

    drain_channel-Holds :
        (arrivals : List Arrival) (q : List String) (b : EventBuffer)
        → All IsClean arrivals
        → Holds cap q b
        → Holds cap (q ++ jsons arrivals) (drain_channel to_value to_string arrivals b)
    unfolding drain_channel jsons buffer_one
    drain_channel-Holds [] q b clean h = rw (append-nil q) h
    drain_channel-Holds (a ∷ arrivals) q b clean h =
        let json = encode_osquery_result to_value to_string a.sequence_id a.result in
        subst (λ x. Holds cap x (drain_channel to_value to_string (a ∷ arrivals) b))
          (append_assoc q (json_of json) (jsons arrivals))
          (drain_channel-Holds arrivals (q ++ json_of json) (buffer_one to_value to_string a b)
            clean.1 (push_json-Holds a json q b clean.0 h))

    collect-Holds :
        (arrivals waiting : List Arrival) (later : List Turn) (q : List String) (b : EventBuffer)
        → All IsClean arrivals
        → All IsClean waiting
        → Holds cap q b
        → Holds cap
            ((q ++ jsons arrivals) ++ jsons waiting)
            (collect to_value to_string (shut_down arrivals waiting later) b)
    unfolding collect jsons buffer_one
    collect-Holds [] waiting later q b clean calm h =
        rw (append-nil q) (drain_channel-Holds waiting q b calm h)
    collect-Holds (a ∷ arrivals) waiting later q b clean calm h =
        let json = encode_osquery_result to_value to_string a.sequence_id a.result in
        subst
          (λ x.
            Holds cap (x ++ jsons waiting)
              (collect to_value to_string (shut_down (a ∷ arrivals) waiting later) b))
          (append_assoc q (json_of json) (jsons arrivals))
          (collect-Holds arrivals waiting later (q ++ json_of json)
            (buffer_one to_value to_string a b) clean.1 calm (push_json-Holds a json q b clean.0 h))

  -- When no push meets a fault, and the cap is one that an `i64` holds: at the shutdown the buffer
  -- has what it had and the texts of all results that had arrived or waited in the channel, in that
  -- order, as many of the last of these as its cap allows, and all of them if they fit.
  pub collect-contents :
      (arrivals waiting : List Arrival) (later : List Turn) (b : EventBuffer)
      → IsKeyed b
      → b.max_events < 2 ^ 63
      → length (contents b) ≤ b.max_events
      → All IsClean arrivals
      → All IsClean waiting
      → let all = (contents b ++ jsons arrivals) ++ jsons waiting in
        let left = contents (collect to_value to_string (shut_down arrivals waiting later) b) in
        (left ≡ keep_last b.max_events all) × (length all ≤ b.max_events → left ≡ all)
  collect-contents arrivals waiting later b keyed small fits clean calm =
      let h =
        collect-Holds b.max_events small arrivals waiting later (contents b) b clean calm (record {
          view = sym (keep_last_all b.max_events (contents b) fits);
          keyed = keyed;
          cap_of = refl;
        }) in
      (
        h.view,
        λ room.
            h.view
            ∙ keep_last_all b.max_events ((contents b ++ jsons arrivals) ++ jsons waiting) room,
      )
