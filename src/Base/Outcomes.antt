-- ===== src/Base/Outcomes.antt =====
-- What a Go call comes to: its results, an error value, or a panic. The errors are the source's
-- error variables and those of libevm that the source returns; `external` is any other error, of
-- code that is a parameter here.
use Prim.Native.Nat.{ℕ}
use mathlib.Core.Bool.{Bool, true, false}
use mathlib.Core.Option.{Option, none, some}

pub data Error : Type 0 where
  -- intmath/intmath.go
  overflow : Error
  -- hook/hook.go, gastime/config.go
  target_to_excess_scaling_zero min_price_zero min_balance_below_amount : Error
  -- worstcase/state.go
  settled_block_not_executed non_consecutive_blocks queue_full cost_overflow : Error
  -- blocks/
  parent_hash_mismatch block_height_not_incrementing hash_mismatch block_resettled
        nil_last_settled_pointer incomplete_block_history mark_block_executed_again
        base_fee_overflows expected_executed unexpectedly_executed receipts_mismatch
        unexpectedly_settled expected_settled state_root_mismatch :
      Error
  -- libevm, core/error.go
  gas_limit_reached fee_cap_too_low fee_cap_very_high tip_very_high nonce_too_low nonce_too_high
        nonce_max insufficient_funds insufficient_funds_for_transfer sender_no_eoa :
      Error
  -- saexec/
  fatal_execution_error executor_closed unexpected_parent : Error
  -- sae/
  block_time_under_minimum block_time_before_parent block_time_after_maximum execution_lagging :
      Error
  unknown_parent block_height_too_low settled_root_mismatch settled_height_mismatch : Error
  block_too_far_in_future block_height_not_uint64 : Error
  -- blocks/access.go
  not_found future_block_not_resolved non_canonical_block neither_number_nor_hash : Error
  both_number_and_hash block_unsupported empty_block_hash named_blocks_not_supported : Error
  -- gasprice/
  nil_now nil_min_suggested_tip nil_max_suggested_tip bad_tip_percentile min_tip_exceeds_max : Error
  history_depth_exhausted missing_block bad_percentile : Error
  -- avalanchego, database/errors.go; sae/blocks.go and sae/vm.go
  database_not_found no_canonical_block only_synchronous : Error
  external : ℕ → Error

pub data Outcome {ℓ} (A : Type ℓ) : Type ℓ where
  ok : A → Outcome A
  err : Error → Outcome A
  panic : Outcome A

-- The next call runs on the results of one that returned without an error.
module _ {ℓ κ} {A : Type ℓ} {B : Type κ} where
  infixl 5 ◌>>=◌
  abbrev pub ◌>>=◌ : Outcome A → (A → Outcome B) → Outcome B
  panic >>= next = panic
  err why >>= next = err why
  ok result >>= next = next result

infixl 5 ◌>>◌
abbrev pub ◌>>◌ {ℓ} : {B : Type ℓ} → Outcome (Unit {0}) → Outcome B → Outcome B
check >> next = check >>= λ passed. next

-- `if bad { return why }`
abbrev pub fail_if : Bool → Error → Outcome (Unit {0})
fail_if bad why = elim bad [ true ↦ err why | false ↦ ok tt ]

-- A method that returns an error, if any, and leaves its receiver as it is by then.
abbrev pub Run {ℓ} : Type ℓ → Type ℓ
Run S = Outcome (S × Option Error)

module _ {ℓ} {S : Type ℓ} where
  -- `if err != nil { return err }`
  abbrev pub and_then : Run S → (S → Run S) → Run S
  and_then panic next = panic
  and_then (err why) next = err why
  and_then (ok (s, some why)) next = ok (s, some why)
  and_then (ok (s, none)) next = next s

  -- A call that leaves the receiver where it is on an error.
  abbrev pub or_return {κ} : {A : Type κ} → S → Outcome A → (A → Run S) → Run S
  or_return s (ok a) next = next a
  or_return s (err why) next = ok (s, some why)
  or_return s panic next = panic
