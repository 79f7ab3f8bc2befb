-- ===== src/Sae/Signal/Wakes.antt =====
-- Whether a call of WaitForEvent in sae/vm.go misses transactions.
use mathlib.Core.Path.{subst}
use strevm.Base.{
  ap, refl, le→leb, ◌-◌, Option-cases, ◌∙◌, Option, ◌≡◌, ◌⊎◌, ◌<◌, ℕ, List, [], ◌∷◌, some, none,
  true, false, arith, inl, inr,
}
use strevm.Sae.Signal.{
  Signal, Action, act, act_all, new_signal, waiting, returned, pool_adds, pool_drops, forward_event,
  close_channel, enter, receive, check, cancel, forward_one, start_wait, receive_one, check_again,
  any_pending,
}

-- While a call waits and transactions are pending, a wake-up is on its way, or the channel is closed.
abbrev pub IsAwake : Signal → Type 0
IsAwake s =
    s.waiter ≡ waiting → 0 < s.pending → (s.buffered ≡ true) ⊎ (0 < s.owed) ⊎ (s.closed ≡ true)

act-IsAwake : (a : Action) (s t : Signal) → IsAwake s → act a s ≡ some t → IsAwake t
unfolding act forward_one start_wait receive_one check_again any_pending
act-IsAwake (pool_adds n) s t awake run = ground arith
act-IsAwake (pool_drops n) s t awake run = ground arith
act-IsAwake forward_event s t awake run = ground arith
act-IsAwake close_channel s t awake run = ground arith
act-IsAwake enter s t awake run = ground arith
act-IsAwake receive s t awake run = ground arith
act-IsAwake check s t awake run = ground arith
act-IsAwake (cancel why) s t awake run = ground arith

act_all-IsAwake :
    (trace : List Action) (s t : Signal) → IsAwake s → act_all trace s ≡ some t → IsAwake t
unfolding act_all
act_all-IsAwake [] s t awake run = ground arith
act_all-IsAwake (a ∷ rest) s t awake run = elim (Option-cases (act a s)) [
  | inl stuck ↦ ground (
    arith,
    subst (λ (o : Option Signal). elim o [ none ↦ none | some u ↦ act_all rest u ] ≡ some t) stuck
        run,
  )
  | inr (u, went) ↦ act_all-IsAwake rest u t (act-IsAwake a s u awake went) (
      subst (λ (o : Option Signal). elim o [ none ↦ none | some u ↦ act_all rest u ] ≡ some t) went
        run)
]

ends_after_receive :
    (s : Signal)
    → s.waiter ≡ waiting
    → 0 < s.pending
    → s.buffered ≡ true
    → act_all (receive ∷ check ∷ []) s
      ≡ some (record s { buffered = false; waiter = returned none })
unfolding act_all act receive_one check_again any_pending
ends_after_receive s waits some_pending full =
    rw waits (rw full (rw (le→leb 1 s.pending some_pending) refl))

forwarded :
    (s : Signal)
    → 0 < s.owed
    → s.closed ≡ false
    → act forward_event s ≡ some (record s { owed = s.owed - 1; buffered = true })
unfolding act forward_one
forwarded s owes opened = ground arith

ends_after_forward :
    (s : Signal)
    → s.waiter ≡ waiting
    → 0 < s.pending
    → 0 < s.owed
    → s.closed ≡ false
    → act_all (forward_event ∷ receive ∷ check ∷ []) s
      ≡ some (record s { owed = s.owed - 1; buffered = false; waiter = returned none })
unfolding act_all
ends_after_forward s waits some_pending owes opened =
    ap (λ o. elim o [ none ↦ none | some t ↦ act_all (receive ∷ check ∷ []) t ])
      (forwarded s owes opened)
    ∙ ends_after_receive (record s { owed = s.owed - 1; buffered = true }) waits some_pending refl

-- Whatever has happened, when a call waits while transactions are pending and the channel is open, the
-- machine's own next actions end it without an error: it receives and looks again, if need be after
-- an event is forwarded.
pub wait_for_event-Wakes :
    (pending : ℕ) (trace : List Action) (s : Signal)
    → act_all trace (new_signal pending) ≡ some s
    → s.waiter ≡ waiting
    → 0 < s.pending
    → s.closed ≡ false
    → (t : Signal) × (t.waiter ≡ returned none)
      × ((act_all (receive ∷ check ∷ []) s ≡ some t)
          ⊎ (act_all (forward_event ∷ receive ∷ check ∷ []) s ≡ some t))
unfolding new_signal
wait_for_event-Wakes pending trace s run waits some_pending opened =
    let awake : (s.buffered ≡ true) ⊎ (0 < s.owed) ⊎ (s.closed ≡ true) =
      act_all-IsAwake trace (new_signal pending) s (λ w p. ground arith) run waits some_pending in
    elim awake [
      | inl full ↦ (
        record s { buffered = false; waiter = returned none },
        refl,
        inl (ends_after_receive s waits some_pending full),
      )
      | inr (inl owes) ↦ (
        record s { owed = s.owed - 1; buffered = false; waiter = returned none },
        refl,
        inr (ends_after_forward s waits some_pending owes opened),
      )
      | inr (inr shut) ↦ ground arith
    ]
