-- ===== src/Agent/Command/Tests.antt =====
-- The delays of a listener that cannot reconnect.
use aigis_zero.Agent.Command.{Isolation, Listener, backoff_ms, round, listen}
use aigis_zero.Agent.Command.Backoff.{failing, doubling, listen-failing}
use aigis_zero.Prelude.{[], ◌∷◌, ◌++◌, ok, ◌≡◌, refl}

program : Unit {0}
unfolding listen failing doubling round
program = tt

abbrev isolation : Isolation
isolation = record { isolating = ok tt; de_isolating = ok tt }

abbrev listener : Listener
listener = record { consecutive_errors = 0; handled = []; backoffs = [] }

-- The first delay is 100 ms.
delays : (listen isolation (failing 3) listener).backoffs ≡ 100 ∷ 200 ∷ 400 ∷ []
unfolding program
delays = refl

listen-failing_example :
    (listen isolation (failing 3) listener).backoffs ≡ [] ++ doubling 3 (backoff_ms 0)
listen-failing_example = listen-failing 3 isolation listener
