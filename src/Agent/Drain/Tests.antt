-- ===== src/Agent/Drain/Tests.antt =====
-- The drain loop's theorems at a batch of one event and a channel that closes.
use aigis_zero.Agent.Buffer.{EventBuffer}
use aigis_zero.Agent.Buffer.Queue.{contents, no_faults}
use aigis_zero.Agent.Drain.{
  AgentEvent, Push, Conditions, Tick, proto_of, event_type_name, parse_events, send_events,
  drain_tick,
}
use aigis_zero.Agent.Drain.Retry.{json_of, drain_tick-contents}
use aigis_zero.Agent.Drain.Sending.{channel, protos, passes, left_open, verdict, send_events_lem}
use aigis_zero.Json.{Value, number, pos_int, object, end, field, Codec, get, get_field}
use aigis_zero.Prelude.{
  false, List, [], ◌∷◌, ◌++◌, map, none, some, ok, err, ◌≡◌, refl, arith, take, drop, length, is_ok,
  if◌then◌else◌,
}

program : Unit {0}
unfolding proto_of event_type_name parse_events get get_field protos
program = tt

abbrev process_event : Value
process_event = object (field "event_type" (number (pos_int 1)) end)

abbrev one_event : Codec
one_event = record { from_slice = λ bytes. ok process_event; to_vec = λ v. ok [] }

-- A numeric tag is sent by its name.
named_tag :
    map (λ (e : AgentEvent). e.event_type) (protos one_event (process_event ∷ [])) ≡ "process" ∷ []
unfolding program
named_tag = refl

send_events_lem_example :
    (send_events one_event (process_event ∷ []) (some (channel [] (some 0))) ≡ (
      some (
          channel
            ([]
              ++ take
                  (passes (some 0) (length (protos one_event (process_event ∷ []))))
                  (protos one_event (process_event ∷ [])))
            (left_open (some 0) (length (protos one_event (process_event ∷ []))))),
      verdict (some 0) (length (protos one_event (process_event ∷ []))),
    ))
    × (send_events one_event (process_event ∷ []) none ≡ (none, err "Stream not connected"))
send_events_lem_example = send_events_lem one_event (process_event ∷ []) [] (some 0)

abbrev waiting : EventBuffer
waiting = record {
  rows =
      record { id = 1; payload = "x"; created_at = 10 }
      ∷ record { id = 2; payload = "y"; created_at = 11 }
      ∷ [];
  last_id = 2;
  max_events = 5;
}

abbrev closed : Tick
closed = record { buffer = waiting; outbound = some (channel [] (some 0)) }

abbrev calm : Conditions
calm i = (no_faults, 20)

abbrev meanwhile : List Push
meanwhile = record { faults = no_faults; now = 12; json = "z" } ∷ []

-- The batch "x" comes back behind "z".
drain_tick-contents_example :
    contents (drain_tick one_event calm meanwhile false 1 closed).buffer
    ≡ (drop 1 (contents waiting) ++ map json_of meanwhile)
      ++ (if is_ok (send_events one_event (process_event ∷ []) (some (channel [] (some 0)))).1
          then []
          else take 1 (contents waiting))
unfolding program
drain_tick-contents_example =
    drain_tick-contents calm (λ i. refl) one_event meanwhile 1 closed process_event [] (omega arith)
      (omega arith) (omega arith) (refl, tt) (omega arith) refl
