-- ===== src/Api/Frames.antt =====
-- Which frames a WebSocket client gets.
use aigis_zero.Api.Events.{LiveEvent}
use aigis_zero.Api.Socket.{
  Turn, event, lagged, interval_tick, Frame, text, ping_frame, Session, Outside, matches_filter,
  send, round, handle_socket,
}
use aigis_zero.Prelude.{
  ℕ, suc, String, true, List, [], ◌∷◌, ◌++◌, map, Option, none, some, Option-cases, Bool-cases, ◌≡◌,
  refl, sym, ◌∙◌, inl, inr, append-nil, append-snoc, if◌then◌else◌,
}

-- The turns of a client that says nothing.
pub data Silent : Type 0 where
  published : LiveEvent → Silent
  skipped : ℕ → Silent
  pinged : Silent

abbrev pub turn : Silent → Turn
turn (published e) = event e
turn (skipped n) = lagged n
turn pinged = interval_tick

module _ (out : Outside) (accepts : (n : ℕ) → out.accepts n ≡ true) where
  -- The printable events that pass the filters, and a ping for each tick of the interval, in order.
  unfoldable pub passing : Option String → List String → List Silent → List Frame
  passing target topics [] = []
  passing target topics (skipped n ∷ ts) = passing target topics ts
  passing target topics (pinged ∷ ts) = ping_frame [] ∷ passing target topics ts
  passing target topics (published e ∷ ts) =
      let rest = passing target topics ts in
      if matches_filter e target topics
      then elim (out.event_text e) [ none ↦ rest | some json ↦ text json ∷ rest ]
      else rest

  send-accepts :
      (f : Frame) (s : Session)
      → send out f s ≡ (record s { sent = s.sent ++ f ∷ []; given = suc s.given }, true)
  unfolding send
  send-accepts f s = rw (accepts s.given) refl

  -- A client that sends nothing, over a socket that takes every frame, gets exactly the printable
  -- events that pass its filters, in the order of the broadcast, and between them a ping whenever
  -- the interval ticks.
  pub handle_socket-sent :
      (ts : List Silent) (s : Session)
      → (handle_socket out (map turn ts) s).sent
        ≡ s.sent ++ passing s.node_filter s.topic_filters ts
  unfolding handle_socket round passing
  handle_socket-sent [] s = sym (append-nil s.sent)
  handle_socket-sent (skipped n ∷ ts) s = handle_socket-sent ts s
  handle_socket-sent (pinged ∷ ts) s = rw (send-accepts (ping_frame []) s) (
      handle_socket-sent ts (record s { sent = s.sent ++ ping_frame [] ∷ []; given = suc s.given })
      ∙ append-snoc s.sent (ping_frame []) (passing s.node_filter s.topic_filters ts))
  handle_socket-sent (published e ∷ ts) s =
      elim (Bool-cases (matches_filter e s.node_filter s.topic_filters)) [
        | inr m ↦ rw m (handle_socket-sent ts s)
        | inl m ↦ elim (Option-cases (out.event_text e)) [
          | inl p ↦ rw (m, p) (handle_socket-sent ts s)
          | inr (json, p) ↦
              rw (m, p, send-accepts (text json) s)
                (handle_socket-sent ts
                    (record s { sent = s.sent ++ text json ∷ []; given = suc s.given })
                  ∙ append-snoc s.sent (text json) (passing s.node_filter s.topic_filters ts))
        ]
      ]
