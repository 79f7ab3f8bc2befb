-- ===== src/Sae/Builder/Included.antt =====
-- The transactions that sae/block_builder.go includes in a block, and the same when the block is rebuilt
-- or replayed.
use strevm.Base.{
  arith, ◌≡◌, Outcome, Option, List, ℕ, refl, ok, some, none, ok-injective, is_ok, is_err, is_panic,
  Outcome-cases, Bool-cases, bind_inverts, inl, inr, false, ltb, sub_u64, [], ◌∷◌,
}
use mathlib.Core.Path.{subst}
use mathlib.Core.List.{map}
use strevm.Hook.{Points}
use strevm.Hook.Ops.{StateDb}
use strevm.WorstCase.{State, Chain, Transaction, apply_tx}
use strevm.SaeExec.{Evm}
use strevm.Sae.Builder.{include_txs, apply_txs, tx_gas}

module _ (db : StateDb) (chain : Chain db) (evm : Evm db) (calculate_price : ℕ → ℕ → ℕ → ℕ)
    (hooks : Points) where
  abbrev inc :
      State db chain → List (Option Transaction) → Outcome (State db chain × List Transaction)
  inc = include_txs db chain evm calculate_price hooks

  abbrev replays : State db chain → List Transaction → Outcome (State db chain)
  replays = apply_txs db chain evm calculate_price hooks

  -- The transactions that are included lead to the same state when they are replayed, and are all
  -- included when they are the candidates.
  abbrev pub Again : State db chain → List Transaction → State db chain → Type 0
  Again s txs t = (replays s txs ≡ ok t) × (inc s (map some txs) ≡ ok (t, txs))

  abbrev result : State db chain → List Transaction → Outcome (State db chain × List Transaction)
  result s txs = ok (s, txs)

  Again-same :
      (s u t : State db chain) (txs txs' : List Transaction)
      → result u txs ≡ result t txs'
      → Again s txs u
      → Again s txs' t
  Again-same s u t txs txs' run =
      subst (λ (x : State db chain × List Transaction). Again s x.1 x.0) (ok-injective run)

  Again-empty :
      (s t : State db chain) (txs : List Transaction) → result s [] ≡ result t txs → Again s txs t
  unfolding include_txs apply_txs
  Again-empty s t txs run = Again-same s s t [] txs run (refl, refl)

  Again-more :
      (s u t : State db chain) (tx : Transaction) (txs : List Transaction)
      → ltb (sub_u64 s.max_block_size s.block_size) tx_gas ≡ false
      → apply_tx db chain s tx ≡ ok u
      → Again u txs t
      → Again s (tx ∷ txs) t
  unfolding include_txs apply_txs
  Again-more s u t tx txs room run (replayed, included) =
      (rw (run, apply_txs) replayed, rw (room, include_txs) (rw run (rw included refl)))

  -- `buildWithTxs` builds the same list of transactions when it rebuilds a block, on the same state.
  pub include_txs-Again :
      (pending : List (Option Transaction)) (s t : State db chain) (txs : List Transaction)
      → inc s pending ≡ ok (t, txs)
      → Again s txs t
  unfolding include_txs
  include_txs-Again [] s t txs = λ run. Again-empty s t txs run
  include_txs-Again (none ∷ rest) s t txs =
      elim (Bool-cases (ltb (sub_u64 s.max_block_size s.block_size) tx_gas)) [
        | inl full ↦ rw (full, include_txs) (λ run. Again-empty s t txs run)
        | inr room ↦ rw (room, include_txs) (λ run. include_txs-Again rest s t txs run)
      ]
  include_txs-Again (some tx ∷ rest) s t txs =
      elim (Bool-cases (ltb (sub_u64 s.max_block_size s.block_size) tx_gas)) [
        | inl full ↦ rw (full, include_txs) (λ run. Again-empty s t txs run)
        | inr room ↦ elim (Outcome-cases (apply_tx db chain s tx)) [
          | is_panic e ↦ rw (room, e, include_txs) (λ run. absurd (ground arith))
          | is_err why e ↦ rw (room, e, include_txs) (λ run. include_txs-Again rest s t txs run)
          | is_ok u e ↦
              rw (room, e, include_txs)
                (λ run.
                  let ((v, more), later, same) = bind_inverts (inc u rest) _ (t, txs) run in
                  Again-same s v t (tx ∷ more) txs same
                    (Again-more s u v tx more room e (include_txs-Again rest u v more later)))
        ]
      ]
