-- ===== src/Sae/Builder/Replay.antt =====
-- The replay of a block in sae/block_builder.go: what it has done to the worst case when it returns.
use strevm.WorstCase.Queue.{safe_max_block_size_lem}
use strevm.SaeExec.Refine.{gas_of_end}
use strevm.GasTime.{after_block, price, before_block}
use strevm.Blocks.{WorstCaseBounds, Block}
use strevm.Base.{
  sym, Outcome, ap, ◌∙◌, refl, some, none, Error, Option, [], ◌+◌, arith, ◌∷◌, ◌≡◌, ◌≤◌, IsU64,
  List, ℕ, ok, bind_inverts, ok-injective,
}
use mathlib.Core.Path.{subst}
use strevm.GasTime
use strevm.Hook.{Header, Points}
use strevm.Hook.Ops.{StateDb, Op}
use strevm.WorstCase.{
  finish_block, start_block, safe_max_block_size, State, Chain, Transaction, apply, apply_tx,
}
use mathlib.Core.Option.{some-injective}
use strevm.WorstCase.Returned.{start_block-inverts, finish_block-inverts}
use strevm.WorstCase.Transactions.{Grows, Grows-refl, Grows-trans, apply-Grows, apply_tx-inverts}
use strevm.SaeExec.{Evm}
use strevm.SaeExec.Loops.{gas_of_txs, gas_of_ops}
use strevm.Sae.Builder.{
  finish_replay, replay_block, returned, returned, replay_block, apply_txs, apply_ops,
}

module _ (db : StateDb) (chain : Chain db) (evm : Evm db) (calculate_price : ℕ → ℕ → ℕ → ℕ)
    (hooks : Points) where
  apply_txs-Grows :
      (txs : List Transaction) (s t : State db chain)
      → IsU64 s.max_block_size
      → s.block_size ≤ s.max_block_size
      → apply_txs db chain evm calculate_price hooks s txs ≡ ok t
      → Grows db chain (gas_of_txs txs) s t
  unfolding apply_txs
  apply_txs-Grows [] s t size_in filled run = Grows-refl db chain s t (ok-injective run) filled
  apply_txs-Grows (tx ∷ rest) s t size_in filled run =
      let (u, first, later) = bind_inverts (apply_tx db chain s tx) _ t run in
      let (o, applied, gas) = apply_tx-inverts db chain s u tx first in
      let g = apply-Grows db chain s u o size_in filled applied in
      let h =
        apply_txs-Grows rest u t (omega (arith, size_in, g.same.max_block_size)) g.filled later in
      subst (λ (n : ℕ). Grows db chain (n + gas_of_txs rest) s t) gas
        (Grows-trans db chain o.gas (gas_of_txs rest) s u t g h)

  apply_ops-Grows :
      (ops : List Op) (s t : State db chain)
      → IsU64 s.max_block_size
      → s.block_size ≤ s.max_block_size
      → apply_ops db chain evm calculate_price hooks s ops ≡ ok t
      → Grows db chain (gas_of_ops ops) s t
  unfolding apply_ops
  apply_ops-Grows [] s t size_in filled run = Grows-refl db chain s t (ok-injective run) filled
  apply_ops-Grows (o ∷ rest) s t size_in filled run =
      let (u, first, later) = bind_inverts (apply db chain s o) _ t run in
      let g = apply-Grows db chain s u o size_in filled first in
      let h =
        apply_ops-Grows rest u t (omega (arith, size_in, g.same.max_block_size)) g.filled later in
      Grows-trans db chain o.gas (gas_of_ops rest) s u t g h

  -- The header of a block with the gas limit and the base fee of the worst case.
  abbrev pub worst_header : Header → GasTime.Time → Header
  worst_header h clock = record h {
    gas_limit = safe_max_block_size clock;
    base_fee = price calculate_price clock;
  }

  -- What a block has done to the state when it is replayed.
  pub record IsReplayed (s s' : State db chain) (b : Block) (clock : GasTime.Time) (g : ℕ)
      : Type 0 where
    pub moved : before_block s.clock hooks b.header ≡ ok clock
    pub follows : b.header.parent_hash ≡ s.expected_parent_hash
    pub gas : g ≡ gas_of_txs (evm.transactions b) + gas_of_end (evm.end_of_block_ops b)
    pub fits : g ≤ safe_max_block_size clock
    pub end :
        after_block calculate_price clock g hooks (worst_header b.header clock)
        ≡ ok (s'.clock, none)

  finish_replay-inverts :
      (s t : State db chain)
      → finish_replay db chain evm calculate_price hooks s ≡ ok t
      → (w : WorstCaseBounds) × (finish_block db chain calculate_price hooks s ≡ ok (t, ok w))
  unfolding finish_replay
  finish_replay-inverts s t run =
      let ((u, made), e, later) =
        bind_inverts (finish_block db chain calculate_price hooks s) _ t run in
      let (w, e', same) = bind_inverts made _ t later in
      (
        w,
        e
            ∙ ap (λ (o : Outcome WorstCaseBounds). ok (u, o)) e'
            ∙ ap (λ (x : State db chain). ok (x, ok w)) (ok-injective same),
      )

  returned-inverts :
      {A : Type 0} (a b : A) (why : Option Error)
      → returned (a, why) ≡ ok b
      → (a ≡ b) × (why ≡ none)
  returned-inverts a b (some e) run = absurd (ground arith)
  returned-inverts a b none run = (ok-injective run, refl)

  started-IsReplayed :
      (s started filled full s' : State db chain) (b : Block) (ops : List Op) (w : WorstCaseBounds)
      → start_block db chain calculate_price hooks s b.header ≡ ok (started, none)
      → apply_txs db chain evm calculate_price hooks started (evm.transactions b) ≡ ok filled
      → evm.end_of_block_ops b ≡ ok ops
      → apply_ops db chain evm calculate_price hooks filled ops ≡ ok full
      → finish_block db chain calculate_price hooks full ≡ ok (s', ok w)
      → (clock : GasTime.Time) × (g : ℕ) × IsReplayed s s' b clock g
  started-IsReplayed s started filled full s' b ops w e1 e2 e3 e4 e5 =
      let (clock, moved, follows, admits) =
        start_block-inverts db chain calculate_price hooks s started b.header e1 in
      let in_word = (safe_max_block_size_lem clock).1 in
      let size = ap (λ (x : State db chain). x.max_block_size) admits in
      let none_yet = ap (λ (x : State db chain). x.block_size) admits in
      let g1 =
        apply_txs-Grows (evm.transactions b) started filled (omega (arith, in_word, size))
          (omega (arith, none_yet)) e2 in
      let g2 =
        apply_ops-Grows ops filled full (omega (arith, in_word, size, g1.same.max_block_size))
          g1.filled e4 in
      let all = Grows-trans db chain _ _ started filled full g1 g2 in
      let (h, fee, has, started_fee, ended, kept) =
        finish_block-inverts db chain calculate_price hooks full s' w e5 in
      let at = ap (λ (x : State db chain). x.clock) admits in
      let header : h ≡ worst_header b.header clock =
        some-injective _ _
          (sym has ∙ all.same.curr ∙ sym (ap (λ (x : State db chain). x.curr) admits)) in
      (
        clock,
        full.block_size,
        record {
          moved = moved;
          follows = follows;
          gas = omega (arith, all.size, none_yet, ap gas_of_end e3);
          fits = omega (arith, all.filled, all.same.max_block_size, size);
          end =
              ap (λ (x : Header). after_block calculate_price clock full.block_size hooks x)
                (sym header)
              ∙ ap (λ (c : GasTime.Time). after_block calculate_price c full.block_size hooks h)
                  (at ∙ sym all.same.clock)
              ∙ ended;
        },
      )

  pub replay_block-inverts :
      (s s' : State db chain) (b : Block)
      → replay_block db chain evm calculate_price hooks s b ≡ ok s'
      → (clock : GasTime.Time) × (g : ℕ) × IsReplayed s s' b clock g
  unfolding replay_block
  replay_block-inverts s s' b run =
      let ((t, why), e1, run1) =
        bind_inverts (start_block db chain calculate_price hooks s b.header) _ s' run in
      let (started, e2, run2) = bind_inverts (returned (t, why)) _ s' run1 in
      let (filled, e3, run3) =
        bind_inverts (apply_txs db chain evm calculate_price hooks started (evm.transactions b)) _
          s' run2 in
      let (ops, e4, run4) = bind_inverts (evm.end_of_block_ops b) _ s' run3 in
      let (full, e5, run5) =
        bind_inverts (apply_ops db chain evm calculate_price hooks filled ops) _ s' run4 in
      let (same, fine) = returned-inverts t started why e2 in
      let (w, finished) = finish_replay-inverts full s' run5 in
      started-IsReplayed s started filled full s' b ops w
        (e1
          ∙ ap (λ (x : State db chain). ok (x, why)) same
          ∙ ap (λ (o : Option Error). ok (started, o)) fine)
        e3 e4 e5 finished
