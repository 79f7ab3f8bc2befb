-- ===== src/Sae/Signal/Tests.antt =====
-- A call that waits, and two transactions that come.
use strevm.Base.{◌≡◌, ◌⊎◌, ◌∷◌, [], some, none, false, refl, arith}
use strevm.Sae.Signal.{
  Signal, act_all, waiting, returned, forward_event, enter, receive, check, pool_adds, act,
  new_signal, start_wait, any_pending,
}
use strevm.Sae.Signal.Wakes.{wait_for_event-Wakes}

abbrev reached : Signal
reached = record { pending = 2; owed = 1; buffered = false; closed = false; waiter = waiting }

wait_for_event-Wakes_example :
    (t : Signal) × (t.waiter ≡ returned none)
    × ((act_all (receive ∷ check ∷ []) reached ≡ some t)
        ⊎ (act_all (forward_event ∷ receive ∷ check ∷ []) reached ≡ some t))
unfolding act_all act start_wait any_pending new_signal
wait_for_event-Wakes_example =
    wait_for_event-Wakes 0 (enter ∷ pool_adds 2 ∷ []) reached refl refl (omega arith) refl
