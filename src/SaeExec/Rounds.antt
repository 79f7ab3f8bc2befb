-- ===== src/SaeExec/Rounds.antt =====
-- The queue of the executor of saexec/execution.go, over rounds of its loop and calls of Enqueue.
use mathlib.Core.List.{append_assoc, append-nil}
use strevm.Base.{
  ap, ◌>>=◌, none, executor_closed, ◌&&◌, ◌++◌, Bool-cases, sym, ◌∙◌, arith, ◌⊎◌, Error, Option,
  ◌∷◌, ◌≡◌, Bool, Outcome, List, ℕ, refl, is_ok, is_err, is_panic, Outcome-cases, ok, err, panic,
  some, inl, inr, true, false, zero, suc, length, ◌≤◌, [],
}
use mathlib.Core.Path.{subst}
use strevm.Hook.{Points}
use strevm.Hook.Ops.{StateDb}
use strevm.Blocks.{Memory}
use strevm.Blocks.Execution.{Database, World}
use strevm.WorstCase.{Chain}
use strevm.SaeExec.{Evm, Executor, execute_next, enqueue, process_one, process_queue, is_some}

module _ (db : StateDb) (chain : Chain db) (evm : Evm db) (calculate_price : ℕ → ℕ → ℕ → ℕ)
    (hooks : Points) (store_db : Database) where
  abbrev E : Type 0
  E = Executor db chain evm calculate_price hooks store_db

  abbrev pub at : store_db.Disk → Memory → List ℕ → Bool → E
  at d m q closed = record { disk = d; memory = m; queue = q; done = closed }

  abbrev next : store_db.Disk → Memory → ℕ → Outcome (World store_db)
  next = execute_next db chain evm calculate_price hooks store_db

  abbrev one : E → Outcome E
  one = process_one db chain evm calculate_price hooks store_db

  abbrev rounds : ℕ → E → Outcome E
  rounds = process_queue db chain evm calculate_price hooks store_db

  stays_closed :
      (d : store_db.Disk) (m : Memory) (q : List ℕ) → one (at d m q true) ≡ ok (at d m q true)
  unfolding process_one
  stays_closed d m [] = refl
  stays_closed d m (p ∷ rest) = refl

  stays_empty :
      (d : store_db.Disk) (m : Memory) (closed : Bool)
      → one (at d m [] closed) ≡ ok (at d m [] closed)
  unfolding process_one
  stays_empty d m closed = refl

  takes_next :
      (d d' : store_db.Disk) (m m' : Memory) (p : ℕ) (rest : List ℕ) (why : Option Error)
      → next d m p ≡ ok (d', m', why)
      → one (at d m (p ∷ rest) false) ≡ ok (at d' m' rest (is_some why))
  unfolding process_one
  takes_next d d' m m' p rest why run = rw (run, process_one) refl

  takes_panic :
      (d : store_db.Disk) (m : Memory) (p : ℕ) (rest : List ℕ)
      → next d m p ≡ panic
      → one (at d m (p ∷ rest) false) ≡ panic
  unfolding process_one
  takes_panic d m p rest run = rw (run, process_one) refl

  rounds_idle : (n : ℕ) (e : E) → one e ≡ ok e → rounds n e ≡ ok e
  unfolding process_queue
  rounds_idle zero e idle = refl
  rounds_idle (suc n) e idle = rw (idle, process_queue) (rounds_idle n e idle)

  -- What can happen to the executor: a round of its loop, or a call of `Enqueue`, whose select takes `done`
  -- or not where both are ready.
  pub data Event : Type 0 where
    round : Event
    arrive : Bool → ℕ → Event

  abbrev pub play : List Event → E → Outcome E
  play [] e = ok e
  play (round ∷ rest) e = one e >>= λ e'. play rest e'
  play (arrive takes_done b ∷ rest) e =
      play rest (enqueue db chain evm calculate_price hooks store_db takes_done e b).0

  -- The blocks that are not refused where `done` is closed.
  abbrev pub kept : List Event → List ℕ
  kept [] = []
  kept (round ∷ rest) = kept rest
  kept (arrive true b ∷ rest) = kept rest
  kept (arrive false b ∷ rest) = b ∷ kept rest

  closed-play :
      (events : List Event) (d : store_db.Disk) (m : Memory) (q : List ℕ)
      → play events (at d m q true) ≡ ok (at d m (q ++ kept events) true)
  unfolding enqueue
  closed-play [] d m q = ap (λ k. ok (at d m k true)) (sym (append-nil q))
  closed-play (round ∷ rest) d m q = rw (stays_closed d m q) (closed-play rest d m q)
  closed-play (arrive true b ∷ rest) d m q = closed-play rest d m q
  closed-play (arrive false b ∷ rest) d m q =
      closed-play rest d m (q ++ b ∷ [])
      ∙ ap (λ k. ok (at d m k true)) (append_assoc q (b ∷ []) (kept rest))

  -- After a round in which the execution fails, whatever rounds and calls of Enqueue follow: nothing more is
  -- executed, so that the disk and the memory stay as the failure left them, and the queue is closed and
  -- holds what was behind the block, and then the blocks that have not been refused, in order.
  pub process_one-stops :
      (d d' : store_db.Disk) (m m' : Memory) (p : ℕ) (rest : List ℕ) (why : Error)
      (events : List Event)
      → next d m p ≡ ok (d', m', some why)
      → play (round ∷ events) (at d m (p ∷ rest) false) ≡ ok (at d' m' (rest ++ kept events) true)
  process_one-stops d d' m m' p rest why events failed =
      rw (takes_next d d' m m' p rest (some why) failed) (closed-play events d' m' rest)

  takes_err :
      (d : store_db.Disk) (m : Memory) (p : ℕ) (rest : List ℕ) (why : Error)
      → next d m p ≡ err why
      → one (at d m (p ∷ rest) false) ≡ err why
  unfolding process_one
  takes_err d m p rest why run = rw (run, process_one) refl

  -- The blocks are executed one after the other, each without an error.
  pub data Executes : store_db.Disk → Memory → List ℕ → store_db.Disk → Memory → Type 0 where
    nothing : {d : store_db.Disk} {m : Memory} → Executes d m [] d m
    first :
        {d d1 d2 : store_db.Disk} {m m1 m2 : Memory} {p : ℕ} {rest : List ℕ}
        → next d m p ≡ ok (d1, m1, none)
        → Executes d1 m1 rest d2 m2
        → Executes d m (p ∷ rest) d2 m2

  -- The end of the loop at a block that fails.
  abbrev pub Fails : store_db.Disk → Memory → ℕ → List ℕ → Outcome E → Type 0
  Fails d m p rest result =
      ((d' : store_db.Disk) × (m' : Memory) × (why : Error) × (next d m p ≡ ok (d', m', some why))
        × (result ≡ ok (at d' m' rest true)))
      ⊎ ((why : Error) × (next d m p ≡ err why) × (result ≡ err why))
      ⊎ ((next d m p ≡ panic) × (result ≡ panic))

  -- All blocks are executed, or those in front of the first that fails.
  abbrev pub Drains : List ℕ → store_db.Disk → Memory → Outcome E → Type 0
  Drains q d m result =
      ((d' : store_db.Disk) × (m' : Memory) × Executes d m q d' m'
        × (result ≡ ok (at d' m' [] false)))
      ⊎ ((before : List ℕ) × (p : ℕ) × (rest : List ℕ) × (d' : store_db.Disk) × (m' : Memory) × (q
            ≡ before ++ p ∷ rest)
          × Executes d m before d' m'
          × Fails d' m' p rest result)

  Drains-first :
      (p : ℕ) (q : List ℕ) (d d1 : store_db.Disk) (m m1 : Memory) (result : Outcome E)
      → next d m p ≡ ok (d1, m1, none)
      → Drains q d1 m1 result
      → Drains (p ∷ q) d m result
  Drains-first p q d d1 m m1 result run (inl (d', m', executes, ends)) =
      inl (d', m', first run executes, ends)
  Drains-first p q d d1 m m1 result run (inr (before, b, rest, d', m', split, executes, fails)) =
      inr (p ∷ before, b, rest, d', m', ap (λ k. p ∷ k) split, first run executes, fails)

  rounds-after : (n : ℕ) (e e1 : E) → one e ≡ ok e1 → rounds (suc n) e ≡ rounds n e1
  unfolding process_queue
  rounds-after n e e1 run = rw (run, process_queue) refl

  rounds-err : (n : ℕ) (e : E) (why : Error) → one e ≡ err why → rounds (suc n) e ≡ err why
  unfolding process_queue
  rounds-err n e why run = rw (run, process_queue) refl

  rounds-panic : (n : ℕ) (e : E) → one e ≡ panic → rounds (suc n) e ≡ panic
  unfolding process_queue
  rounds-panic n e run = rw (run, process_queue) refl

  -- In as many rounds as the queue is long, or more, the executor executes the blocks of the queue in
  -- order, each on what the one before left. It ends with an empty queue, or at the first block that
  -- fails: with an error it leaves what the failure left and the blocks behind it, and is closed.
  pub process_queue-Drains :
      (q : List ℕ) (n : ℕ) (d : store_db.Disk) (m : Memory)
      → length q ≤ n
      → Drains q d m (rounds n (at d m q false))
  process_queue-Drains [] n d m le = inl (d, m, nothing, rounds_idle n _ (stays_empty d m false))
  process_queue-Drains (p ∷ rest) zero d m le = absurd (omega arith)
  process_queue-Drains (p ∷ rest) (suc n) d m le = elim (Outcome-cases (next d m p)) [
    | is_panic e ↦ inr (
      [],
      p,
      rest,
      d,
      m,
      refl,
      nothing,
      inr (inr (e, rounds-panic n _ (takes_panic d m p rest e))),
    )
    | is_err x e ↦ inr (
      [],
      p,
      rest,
      d,
      m,
      refl,
      nothing,
      inr (inl (x, e, rounds-err n _ x (takes_err d m p rest x e))),
    )
    | is_ok (d', m', some why) e ↦ inr (
      [],
      p,
      rest,
      d,
      m,
      refl,
      nothing,
      inl (
        d',
        m',
        why,
        e,
        rounds-after n _ _ (takes_next d d' m m' p rest (some why) e)
            ∙ rounds_idle n _ (stays_closed d' m' rest),
      ),
    )
    | is_ok (d', m', none) e ↦ Drains-first p rest d d' m m' _ e (
        subst (Drains rest d' m') (sym (rounds-after n _ _ (takes_next d d' m m' p rest none e)))
          (process_queue-Drains rest n d' m' (omega (arith, le))))
  ]

  -- A block is refused, or joins the end of the queue.
  pub enqueue_cases :
      (takes_done : Bool) (e : E) (p : ℕ)
      → (enqueue db chain evm calculate_price hooks store_db takes_done e p
          ≡ (e, some executor_closed))
        ⊎ (enqueue db chain evm calculate_price hooks store_db takes_done e p
            ≡ (record e { queue = e.queue ++ p ∷ [] }, none))
  unfolding enqueue
  enqueue_cases takes_done e p = elim (Bool-cases (e.done && takes_done)) [
    | inl refused ↦ inl (rw (refused, enqueue) refl)
    | inr passed ↦ inr (rw (passed, enqueue) refl)
  ]
