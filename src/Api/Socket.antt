-- ===== src/Api/Socket.antt =====
-- api-backend/src/handlers/ws.rs, with the messages of models/ws.rs. serde_json's parser and
-- printer, `trim`, `to_lowercase`, the clock, and whether the socket takes a frame are parameters.
use Prim.Native.Char.{code}
use Prim.Native.String
use aigis_zero.Api.Events.{LiveEvent, log, alert, heartbeat}
use aigis_zero.Prelude.{
  ℕ, suc, String, Bool, true, false, not, ◌||◌, List, [], ◌∷◌, ◌++◌, map, Option, none, some, ℤ,
  if◌then◌else◌, str_eq, ◌==◌,
}

pub data WsClientMessage : Type 0 where
  subscribe : Option (List String) → Option String → WsClientMessage
  ping : WsClientMessage

pub data WsServerMessage : Type 0 where
  pong : ℤ → WsServerMessage
  subscribed : List String → Option String → WsServerMessage
  error : String → WsServerMessage

-- `axum::extract::ws::Message`, of the kinds that are sent.
pub data Frame : Type 0 where
  text : String → Frame
  ping_frame : List ℕ → Frame
  pong_frame : List ℕ → Frame

-- What the `select!` of one round takes.
pub data Turn : Type 0 where
  event : LiveEvent → Turn
  lagged : ℕ → Turn
  broadcast_closed : Turn
  client_gone : Turn
  client_text : String → Turn
  client_ping : List ℕ → Turn
  client_error : Turn
  client_other : Turn
  interval_tick : Turn

abbrev pub topic_of : LiveEvent → String
topic_of (log l) = "logs"
topic_of (alert a) = "alerts"
topic_of (heartbeat h) = "heartbeats"

abbrev pub node_of : LiveEvent → String
node_of (log l) = l.node_id
node_of (alert a) = a.node_id
node_of (heartbeat h) = h.node_id

-- `topics.iter().any(|t| t == event_topic || t == "all")`
unfoldable pub any_topic : String → List String → Bool
any_topic event_topic [] = false
any_topic event_topic (t ∷ ts) =
    (str_eq t event_topic || str_eq t "all") || any_topic event_topic ts

abbrev pub wants_topic : String → List String → Bool
wants_topic event_topic [] = true
wants_topic event_topic (t ∷ ts) = any_topic event_topic (t ∷ ts)

abbrev pub wants_node : String → Option String → Bool
wants_node event_node none = true
wants_node event_node (some target) = str_eq target event_node

unfoldable pub matches_filter : LiveEvent → Option String → List String → Bool
matches_filter e target_node topics =
    if not (wants_topic (topic_of e) topics)
    then false
    else if not (wants_node (node_of e) target_node)
    then false
    else true

-- `t.split(',')`, with the piece that has been read so far.
unfoldable pub split_from : String → String → List String
split_from piece String.[] = piece ∷ []
split_from piece (String.◌∷◌ c s) =
    let rest = split_from "" s in
    let longer = split_from (String.◌++◌ piece (String.◌∷◌ c String.[])) s in
    if code c == b',' then piece ∷ rest else longer

module _ (trim to_lowercase : String → String) where
  unfoldable pub parse_topics : Option String → List String
  unfolding split_from
  parse_topics (some t) = map (λ (s : String). to_lowercase (trim s)) (split_from "" t)
  parse_topics none = "logs" ∷ "alerts" ∷ "heartbeats" ∷ []

-- The current filters, the frames that the socket took, and how many it was given.
pub record Session : Type 0 where
  pub node_filter : Option String
  pub topic_filters : List String
  pub sent : List Frame
  pub given : ℕ

pub record Outside : Type 0 where
  pub event_text : LiveEvent → Option String
  pub server_text : WsServerMessage → Option String
  pub client_message : String → Option WsClientMessage
  pub now_millis : ℤ
  pub accepts : ℕ → Bool

module _ (out : Outside) where
  -- `sender.send(frame).await`, and whether it succeeded.
  unfoldable pub send : Frame → Session → Session × Bool
  send f s =
      if out.accepts s.given
      then (record s { sent = s.sent ++ f ∷ []; given = suc s.given }, true)
      else (record s { given = suc s.given }, false)

  -- An answer that cannot be printed is left out; whether it is sent is ignored.
  abbrev pub answer : WsServerMessage → Session → Session
  answer m s = elim (out.server_text m) [ none ↦ s | some json ↦ (send (text json) s).0 ]

  abbrev pub set_topics : Option (List String) → Session → Session
  set_topics none s = s
  set_topics (some t) s = record s { topic_filters = t }

  abbrev pub handle_command : Option WsClientMessage → Session → Session
  handle_command none s = s
  handle_command (some (subscribe topics node_id)) s =
      let s' = record (set_topics topics s) { node_filter = node_id } in
      answer (subscribed s'.topic_filters node_id) s'
  handle_command (some ping) s = answer (pong out.now_millis) s

  -- A frame that must be sent; `false` ends the loop.
  abbrev pub forward : LiveEvent → Session → Session × Bool
  forward e s =
      if matches_filter e s.node_filter s.topic_filters
      then elim (out.event_text e) [ none ↦ (s, true) | some json ↦ send (text json) s ]
      else (s, true)

  -- One round; `false` is a `break`.
  unfoldable pub round : Turn → Session → Session × Bool
  round (event e) s = forward e s
  round (lagged n) s = (s, true)
  round broadcast_closed s = (s, false)
  round client_gone s = (s, false)
  round (client_text t) s = (handle_command (out.client_message t) s, true)
  round (client_ping payload) s = send (pong_frame payload) s
  round client_error s = (s, false)
  round client_other s = (s, true)
  round interval_tick s = send (ping_frame []) s

  -- The loop of `handle_socket`.
  unfoldable pub handle_socket : List Turn → Session → Session
  handle_socket [] s = s
  handle_socket (t ∷ ts) s =
      let (s', goes_on) = round t s in
      let rest = handle_socket ts s' in if goes_on then rest else s'
