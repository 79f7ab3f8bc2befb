-- ===== src/GasPrice/History/Percentiles.antt =====
-- tipPercentiles of gasprice/block_cache.go moves one index forward over all percentiles; it finds what
-- a search from the first transaction on finds for each.
use strevm.GasPrice.History.{tip_percentiles_of, tip_percentiles, tips_at, Floats, reach}
use strevm.Base.{
  ℤ, pos, ◌∙◌, sym, true, inr, false, add_u64, inl, ltb, Bool-cases, arith, u64_mod, [], leb, List,
  ◌≡◌, refl, ℕ, ◌+◌, ◌<◌, ◌≤◌, if◌then◌else◌, ◌∷◌,
}
use strevm.GasPrice.{Block, Transaction}
use mathlib.Core.List.{map}

-- The first transaction at which the gas of the transactions so far reaches the threshold, or the last
-- one; `before` is the gas before the transaction.
pub first_reaching : ℕ → ℕ → Transaction → List Transaction → Transaction
first_reaching threshold before tx [] = tx
first_reaching threshold before tx (next ∷ rest) =
    let later = first_reaching threshold (before + tx.gas) next rest in
    if leb threshold (before + tx.gas) then tx else later

abbrev pub total_gas : List Transaction → ℕ
total_gas [] = 0
total_gas (tx ∷ rest) = tx.gas + total_gas rest

module _ (threshold : ℕ) where
  -- Where the index is after a percentile, a search from the start is a search from there, for a
  -- threshold that is no lower.
  reach_lem :
      (tx : Transaction) (before : ℕ) (rest : List Transaction)
      → before + tx.gas + total_gas rest < u64_mod
      → (found : Transaction) × (past : ℕ) × (left : List Transaction) × (reach threshold tx
            (before + tx.gas)
            rest
          ≡ (found, past + found.gas, left))
        × (found ≡ first_reaching threshold before tx rest)
        × (past + found.gas + total_gas left < u64_mod)
        × ((later : ℕ)
            → threshold ≤ later
            → first_reaching later before tx rest ≡ first_reaching later past found left)
  unfolding reach first_reaching
  reach_lem tx before [] fits = (tx, before, [], refl, refl, fits, λ later above. refl)
  reach_lem tx before (next ∷ rest) fits =
      let (found, past, left, run, eq, bound, on) =
        reach_lem next (before + tx.gas) rest (omega arith) in
      elim (Bool-cases (ltb (before + tx.gas) threshold)) [
        | inl below ↦
            let sum : add_u64 (before + tx.gas) next.gas ≡ before + tx.gas + next.gas =
              omega arith in
            let short : leb threshold (before + tx.gas) ≡ false = ground arith in
            (
              found,
              past,
              left,
              rw (below, sum) run,
              rw short eq,
              bound,
              λ later above.
                  let low : leb later (before + tx.gas) ≡ false = ground arith in
                  rw low (on later above),
            )
        | inr reached ↦
            let enough : leb threshold (before + tx.gas) ≡ true = ground arith in
            (tx, before, next ∷ rest, rw reached refl, rw enough refl, fits, λ later above. refl)
      ]

module _ (floats : Floats) where
  -- Thresholds that do not fall.
  abbrev pub ThresholdsAscend : ℕ → ℕ → List floats.Float → Type 0
  ThresholdsAscend gas_used low [] = Unit {0}
  ThresholdsAscend gas_used low (p ∷ ps) =
      (low ≤ floats.threshold gas_used p)
      × ThresholdsAscend gas_used (floats.threshold gas_used p) ps

  tips_at_lem :
      (gas_used low : ℕ) (first : Transaction) (all : List Transaction) (tx : Transaction)
      (before : ℕ) (rest : List Transaction) (ps : List floats.Float)
      → ThresholdsAscend gas_used low ps
      → before + tx.gas + total_gas rest < u64_mod
      → ((later : ℕ)
          → low ≤ later
          → first_reaching later 0 first all ≡ first_reaching later before tx rest)
      → tips_at floats gas_used ps (tx, before + tx.gas, rest)
        ≡ map (λ p. (first_reaching (floats.threshold gas_used p) 0 first all).tip) ps
  unfolding tips_at
  tips_at_lem gas_used low first all tx before rest [] up fits same = refl
  tips_at_lem gas_used low first all tx before rest (p ∷ ps) (above, up) fits same =
      let (found, past, left, run, eq, bound, on) =
        reach_lem (floats.threshold gas_used p) tx before rest fits in
      let head : found ≡ first_reaching (floats.threshold gas_used p) 0 first all =
        eq ∙ sym (same (floats.threshold gas_used p) above) in
      let behind =
        tips_at_lem gas_used (floats.threshold gas_used p) first all found past left ps up bound
          (λ later high. same later (omega arith) ∙ on later high) in
      rw run (λ i. (head i).tip ∷ behind i)

  -- The tip that a search of its own finds for a percentile.
  pub tip_at : ℕ → List Transaction → floats.Float → ℤ
  tip_at gas_used [] p = pos 0
  tip_at gas_used (tx ∷ rest) p = (first_reaching (floats.threshold gas_used p) 0 tx rest).tip

  of_txs :
      (txs : List Transaction) (percentiles : List floats.Float) (gas_used : ℕ)
      → ThresholdsAscend gas_used 0 percentiles
      → total_gas txs < u64_mod
      → tip_percentiles_of floats gas_used txs percentiles ≡ map (tip_at gas_used txs) percentiles
  unfolding tip_percentiles_of tip_at
  of_txs [] percentiles gas_used up fits = refl
  of_txs (tx ∷ rest) percentiles gas_used up fits =
      let sum : 0 + tx.gas ≡ tx.gas = omega arith in
      rw sum at (
        tips_at_lem gas_used 0 tx rest tx 0 rest percentiles up (omega arith) (λ later above. refl))

  -- For thresholds that do not fall, tipPercentiles returns for each percentile the tip of the first
  -- transaction at which the gas reaches the threshold, or of the last one, and zero without
  -- transactions.
  pub tip_percentiles-eq :
      (b : Block) (percentiles : List floats.Float)
      → ThresholdsAscend b.gas_used 0 percentiles
      → total_gas b.txs < u64_mod
      → tip_percentiles floats b percentiles ≡ map (tip_at b.gas_used b.txs) percentiles
  unfolding tip_percentiles
  tip_percentiles-eq b percentiles up fits = of_txs b.txs percentiles b.gas_used up fits
