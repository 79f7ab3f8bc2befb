-- ===== src/Blocks/LifeCycle.antt =====
-- The stages of a block: blocks/invariants.go, and the functions of blocks/settlement.go and
-- blocks/block.go that combine execution and settlement. The bounds that are only logged are
-- returned as lists of what is logged.
pub mod Silent
use strevm.Base.{
  unexpectedly_settled, expected_settled, state_root_mismatch, receipts_mismatch, ◌>>◌, length,
  ◌==◌, ltb, unexpectedly_executed, ◌++◌, if◌then◌else◌, ◌>>=◌, not, expected_executed, ◌∷◌, [],
  fail_if, get_elem?, none, some, true, false, List, ℕ, Outcome, Option, Bool, ok, err, panic,
}
use strevm.GasTime
use strevm.Hook.{Header, Points}
use strevm.Blocks.{Memory, Block, WorstCaseBounds, store, new}
use strevm.Blocks.Settlement.{mark_settled, precise_time, last_settled_of}
use strevm.Blocks.Execution.{
  Database, World, mark_executed_with, set_base_fee, restore_execution_artefacts,
}

-- `LifeCycleStage`
pub data LifeCycleStage : Type 0 where
  not_executed executed settled : LifeCycleStage

-- `expect >= Executed` and `expect >= Settled`.
abbrev pub at_least_executed : LifeCycleStage → Bool
at_least_executed not_executed = false
at_least_executed executed = true
at_least_executed settled = true

abbrev pub at_least_settled : LifeCycleStage → Bool
at_least_settled settled = true
at_least_settled executed = false
at_least_settled not_executed = false

module _ (db : Database) where
  -- The state root after the execution of the last settled block. The caller has it executed; the
  -- source blocks on a block that is not, and panics on nil, both of which are `panic` here.
  post_execution_root : Memory → Option ℕ → Outcome ℕ
  post_execution_root m none = panic
  post_execution_root m (some q) = elim (m.block q).execution [
    | none ↦ panic
    | some e ↦ ok e.state_root_post
  ]

  check_execution : Block → LifeCycleStage → Outcome (Unit {0})
  check_execution b expect = elim b.execution [
    | none ↦ fail_if (at_least_executed expect) expected_executed
    | some e ↦
        fail_if (not (at_least_executed expect)) unexpectedly_executed
        >> fail_if (not (e.receipt_root == db.derive_sha e.receipts)) receipts_mismatch
  ]

  check_ancestry : Memory → ℕ → LifeCycleStage → Outcome (Unit {0})
  unfolding post_execution_root
  check_ancestry m p expect = elim (m.block p).ancestry [
    | none ↦ fail_if (not (at_least_settled expect)) unexpectedly_settled
    | some a ↦
        fail_if (at_least_settled expect) expected_settled
        >> (post_execution_root m (last_settled_of m p) >>= λ root.
            fail_if (not ((m.block p).header.root == root)) state_root_mismatch)
  ]

  -- `CheckInvariants`
  pub check_invariants : Memory → ℕ → LifeCycleStage → Outcome (Unit {0})
  unfolding check_execution check_ancestry
  check_invariants m p expect = do check_execution (m.block p) expect; check_ancestry m p expect

  -- `RestoreSettledBlock`, at a pointer that is fresh.
  pub restore_settled_block : db.Disk → Memory → ℕ → Header → ℕ → Outcome Memory
  unfolding check_invariants
  restore_settled_block d m p header hash = do
    m1 ← new m p header hash none none
    m2 ← restore_execution_artefacts db d m1 p
    m3 ← mark_settled m2 p false
    check_invariants m3 p settled
    ok m3

  -- The end of `MarkSynchronous`, on an error of markExecuted as it is.
  settle_synchronous : ℕ → World db → Outcome (World db)
  settle_synchronous p (d, m, some x) = ok (d, m, some x)
  settle_synchronous p (d, m, none) =
      let m1 = store m p (record (m.block p) { synchronous = true }) in
      elim (mark_settled m1 p false) [
        | ok m2 ↦ ok (d, m2, none)
        | err x ↦ ok (d, m1, some x)
        | panic ↦ panic
      ]

  -- `MarkSynchronous`; the receipt root and the base fee of the header are arguments.
  pub mark_synchronous : Points → db.Disk → Memory → ℕ → ℕ → Option ℕ → ℕ → Outcome (World db)
  unfolding settle_synchronous
  mark_synchronous hooks d m p receipt_hash header_base_fee excess_after = do
    let b = m.block p
    elim (GasTime.new (precise_time hooks b.header) (hooks.gas_config_after b.header).0 excess_after
        (hooks.gas_config_after b.header).1) [
          | err x ↦ ok (d, m, some x)
          | panic ↦ panic
          | ok exec_time ↦
              elim (set_base_fee
                (record {
                  by_gas = exec_time;
                  base_fee = 0;
                  receipt_root = receipt_hash;
                  state_root_post = b.header.root;
                  receipts = [];
                })
                header_base_fee) [
                  | err x ↦ ok (d, m, some x)
                  | panic ↦ panic
                  | ok e ↦
                      mark_executed_with db d m p [] e false false >>= λ w. settle_synchronous p w
                ]
        ]

-- What `CheckBaseFeeBound` and `checkBalanceBounds` log.
pub data Logged : Type 0 where
  base_fee_above_bound op_not_in_bounds wrong_number_of_balances : Logged
  burner_not_in_bounds balance_below_bound : ℕ → Logged

-- `CheckBaseFeeBound`
unfoldable pub check_base_fee_bound : Block → ℕ → List Logged
check_base_fee_bound b actual = elim b.bounds [
  | none ↦ []
  | some w ↦ if ltb w.max_base_fee actual then base_fee_above_bound ∷ [] else []
]

abbrev pub lookup : List (ℕ × ℕ) → ℕ → Option ℕ
lookup [] a = none
lookup ((k, v) ∷ rest) a = if k == a then some v else lookup rest a

-- The body of the loop of `checkBalanceBounds`.
unfoldable pub check_balance : List (ℕ × ℕ) → (ℕ → ℕ) → ℕ → List Logged
check_balance bounds balance a = elim (lookup bounds a) [
  | none ↦ burner_not_in_bounds a ∷ []
  | some low ↦ if ltb (balance a) low then balance_below_bound a ∷ [] else []
]

unfoldable pub check_balances : List (ℕ × ℕ) → (ℕ → ℕ) → List ℕ → List Logged
check_balances bounds balance [] = []
check_balances bounds balance (a ∷ rest) =
    check_balance bounds balance a ++ check_balances bounds balance rest

-- `checkBalanceBounds`
unfoldable pub check_balance_bounds : WorstCaseBounds → (ℕ → ℕ) → ℕ → List ℕ → List Logged
unfolding check_balances check_balance
check_balance_bounds w balance op_index accounts =
    elim (get_elem? w.min_op_burner_balances op_index) [
      | none ↦ op_not_in_bounds ∷ []
      | some bounds ↦
          (if length bounds == length accounts then [] else wrong_number_of_balances ∷ [])
          ++ check_balances bounds balance accounts
    ]

-- `CheckOpBurnerBalanceBounds`, and `CheckSenderBalanceBound` with the sender that was recovered.
unfoldable pub check_op_burner_balance_bounds : Block → (ℕ → ℕ) → ℕ → List ℕ → List Logged
unfolding check_balance_bounds
check_op_burner_balance_bounds b balance op_index accounts = elim b.bounds [
  | none ↦ []
  | some w ↦ check_balance_bounds w balance op_index accounts
]
