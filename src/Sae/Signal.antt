-- ===== src/Sae/Signal.antt =====
-- signalNewTxsToEngine and WaitForEvent of sae/vm.go: the goroutine that forwards the events of the pool to
-- a channel with a buffer of one, and the call that waits for it. The pool sends an event after
-- each addition of transactions that are pending; `owed` counts those that are not forwarded.
pub mod Wakes
mod Tests
use strevm.Base.{
  Bool, true, false, not, ◌&&◌, Option, some, none, List, [], ◌∷◌, ℕ, zero, suc, ◌+◌, ◌-◌, leb,
  if◌then◌else◌, ◌>>=◌, Error, external,
}

-- Where the call of `WaitForEvent` is: not called, before its `select`, after it has received, or
-- returned, with the error if there is one.
pub data Waiter : Type 0 where
  idle : Waiter
  waiting : Waiter
  received : Waiter
  returned : Option Error → Waiter

-- The channel `newTxs`, the events and the pending transactions of the pool, and the call.
pub record Signal : Type 0 where
  pub pending : ℕ
  pub owed : ℕ
  pub buffered : Bool
  pub closed : Bool
  pub waiter : Waiter

-- `make(chan struct{}, 1)`
pub new_signal : ℕ → Signal
new_signal pending = record {
  pending = pending;
  owed = 0;
  buffered = false;
  closed = false;
  waiter = idle;
}

-- `numPendingTxs() > 0`
pub any_pending : Signal → Bool
any_pending s = leb 1 s.pending

-- What can happen next.
pub data Action : Type 0 where
  pool_adds : ℕ → Action
  pool_drops : ℕ → Action
  forward_event : Action
  close_channel : Action
  enter : Action
  receive : Action
  check : Action
  cancel : Error → Action

-- The body of the goroutine, for an event: the send that does not wait.
forward_one : Signal → Option Signal
forward_one s = elim s.owed [
  | zero ↦ none
  | suc k ↦ if s.closed then none else some (record s { owed = k; buffered = true })
]

-- The beginning of `WaitForEvent`, which drains the buffer and returns if transactions are pending.
start_wait : Signal → Signal
unfolding any_pending
start_wait s =
    if any_pending s
    then record s { buffered = false; waiter = returned none }
    else record s { waiter = waiting }

-- The receive from `newTxs` in the loop; a channel that is closed and empty ends the call.
receive_one : Signal → Option Signal
receive_one s =
    if s.buffered
    then some (record s { buffered = false; waiter = received })
    else if s.closed
    then some (record s { waiter = returned (some (external 0)) })
    else none

-- The test after the receive, and the next round of the loop.
check_again : Signal → Signal
unfolding any_pending
check_again s =
    if any_pending s then record s { waiter = returned none } else record s { waiter = waiting }

-- One action, if it can happen.
pub act : Action → Signal → Option Signal
unfolding forward_one start_wait receive_one check_again
act (pool_adds n) s =
    some (record s { pending = s.pending + n; owed = if s.closed then s.owed else s.owed + 1 })
act (pool_drops n) s = some (record s { pending = s.pending - n })
act forward_event s = forward_one s
act close_channel s = some (record s { closed = true; owed = 0 })
act enter s = elim s.waiter [
  | idle ↦ some (start_wait s)
  | returned e ↦ some (start_wait s)
  | waiting ↦ none
  | received ↦ none
]
act receive s = elim s.waiter [
  | waiting ↦ receive_one s
  | idle ↦ none
  | received ↦ none
  | returned e ↦ none
]
act check s = elim s.waiter [
  | received ↦ some (check_again s)
  | idle ↦ none
  | waiting ↦ none
  | returned e ↦ none
]
act (cancel why) s = elim s.waiter [
  | waiting ↦ some (record s { waiter = returned (some why) })
  | idle ↦ none
  | received ↦ none
  | returned e ↦ none
]

-- Actions one after the other.
pub act_all : List Action → Signal → Option Signal
unfolding act
act_all [] s = some s
act_all (a ∷ rest) s = elim (act a s) [ none ↦ none | some t ↦ act_all rest t ]
