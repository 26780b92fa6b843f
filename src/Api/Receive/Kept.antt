-- ===== src/Api/Receive/Kept.antt =====
-- What of the received messages is broadcast, and what is kept for the repository.
use aigis_zero.Api.Receive.Steps.{
  with_some, with_some-append, nothing, IsReceived, started, send-IsReceived, try_send-IsReceived,
  take_entry-IsReceived, flush-IsReceived, unless_over, take_turn-loop_over, tick_over-loop_over,
  stop_worker-loop_over, sent-loop_over,
}
use aigis_zero.Api.Batch.{persist}
use aigis_zero.Api.Events.{Outside, NewEventLogEntity, LiveEvent}
use aigis_zero.Api.Receive.{
  Turn, message, receive_error, worker_takes, worker_ticks, Receiving, send, try_send, loop_stops,
  worker_stops, take_turn, tick_over, stop_worker, event_of_message, entry_of_message, receive,
  receive_all,
}
use aigis_zero.Json.{Bytes}
use aigis_zero.Prelude.{
  String, List, [], ◌∷◌, ◌++◌, Option, ◌≡◌, refl, sym, ap, ◌∙◌, arith, append-nil, append_assoc,
  Bool, true, false, if◌then◌else◌, inl,
}

-- The messages that the loop takes: those before it stops.
unfoldable pub taken : Bool → List Turn → List (Outside × String × Option Bytes)
taken over [] = []
taken over (message out topic payload ∷ turns) =
    let rest = taken over turns in if over then rest else (out, topic, payload) ∷ rest
taken over (loop_stops ∷ turns) = taken true turns
taken over (receive_error ∷ turns) = taken over turns
taken over (worker_takes ∷ turns) = taken over turns
taken over (worker_ticks ∷ turns) = taken over turns
taken over (worker_stops ∷ turns) = taken over turns

-- The live events of the messages, and their entries, in order.
unfoldable pub live_events : List (Outside × String × Option Bytes) → List LiveEvent
live_events [] = []
live_events ((out, topic, payload) ∷ messages) =
    with_some (event_of_message out topic payload) (live_events messages)

unfoldable pub log_entries : List (Outside × String × Option Bytes) → List NewEventLogEntity
log_entries [] = []
log_entries ((out, topic, payload) ∷ messages) =
    with_some (entry_of_message out topic payload) (log_entries messages)

-- What is to show after the turns.
abbrev Continues : List Turn → Type 0
Continues turns =
    (over : Bool) (events : List LiveEvent) (new : List NewEventLogEntity) (s : Receiving)
    → s.loop_over ≡ over
    → IsReceived events new s
    → IsReceived (events ++ live_events (taken over turns)) (new ++ log_entries (taken over turns))
        (receive_all turns s)

message-Continues :
    (out : Outside) (topic : String) (payload : Option Bytes) (turns : List Turn)
    → Continues turns
    → Continues (message out topic payload ∷ turns)
unfolding receive_all receive taken live_events log_entries
message-Continues out topic payload turns ih true events new s k h =
    let same : receive (message out topic payload) s ≡ s =
      ap
        (λ b.
          if b
          then s
          else try_send (entry_of_message out topic payload)
              (send (event_of_message out topic payload) s))
        k in
    rw same (ih true events new s k h)
message-Continues out topic payload turns ih false events new s k h =
    let event = event_of_message out topic payload in
    let entry = entry_of_message out topic payload in
    let messages = taken false turns in
    let same : receive (message out topic payload) s ≡ try_send entry (send event s) =
      ap (λ b. if b then s else try_send entry (send event s)) k in
    let step =
      try_send-IsReceived entry (events ++ with_some event []) new (send event s)
        (send-IsReceived event events new s h) in
    let rest = ih false _ _ _ (sent-loop_over event entry s ∙ k) step in
    rw
      (
        same,
        sym (with_some-append event (live_events messages)),
        sym (append_assoc events (with_some event []) (live_events messages)),
        sym (with_some-append entry (log_entries messages)),
        sym (append_assoc new (with_some entry []) (log_entries messages)),
      )
      rest

receive_all-Continues : (turns : List Turn) → Continues turns
unfolding receive_all receive taken live_events log_entries persist
receive_all-Continues [] over events new s k h = rw (append-nil events, append-nil new) h
receive_all-Continues (message out topic payload ∷ turns) over events new s k h =
    message-Continues out topic payload turns (receive_all-Continues turns) over events new s k h
receive_all-Continues (receive_error ∷ turns) over events new s k h =
    receive_all-Continues turns over events new s k h
receive_all-Continues (loop_stops ∷ turns) over events new s k h =
    receive_all-Continues turns true events new (record s { loop_over = true }) refl
      (record {
        broadcasts = h.broadcasts;
        splits = h.splits;
        filled = h.filled;
        flushed = h.flushed;
        queued = h.queued;
        waiting = h.waiting;
        batches = h.batches;
      })
receive_all-Continues (worker_takes ∷ turns) over events new s k h =
    receive_all-Continues turns over events new (take_turn s) (take_turn-loop_over s ∙ k) (
      unless_over s.worker_over events new s _
        (λ runs. take_entry-IsReceived s.queue events new s refl runs h) h)
receive_all-Continues (worker_ticks ∷ turns) over events new s k h =
    receive_all-Continues turns over events new (tick_over s) (tick_over-loop_over s ∙ k) (
      unless_over s.worker_over events new s _
        (λ runs. flush-IsReceived s.worker_over events new s (λ ended. ended) h) h)
receive_all-Continues (worker_stops ∷ turns) over events new s k h =
    receive_all-Continues turns over events new (stop_worker s) (stop_worker-loop_over s ∙ k) (
      unless_over s.worker_over events new s _
        (λ runs. flush-IsReceived true events new s (λ ended. refl) h) h)

-- However the messages, the errors, the worker's turns and the ends of the loop and of the worker
-- follow each other: every live event of a message that comes before the loop stops is broadcast,
-- in order; the entries of these messages are divided, in order, into those that are handed to the
-- repository, wait for it or are in the channel, and those that are dropped, of which there are none
-- before 10,000 of the others or the end of the worker; the channel holds 10,000 entries at most,
-- fewer than 50 wait in the batch, none once the worker is over, and the batches that are handed
-- over have 1 to 50 entries. What is in the channel at the end of the worker stays there.
pub receive_all-IsReceived :
    (turns : List Turn)
    → IsReceived
        (live_events (taken false turns))
        (log_entries (taken false turns))
        (receive_all turns started)
receive_all-IsReceived turns = receive_all-Continues turns false [] [] started refl (record {
  broadcasts = refl;
  splits = nothing;
  filled = inl refl;
  flushed = λ ended. cc;
  queued = omega arith;
  waiting = omega arith;
  batches = tt;
})
