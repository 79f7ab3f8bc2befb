-- ===== src/Blocks/Settlement/Parents.antt =====
-- Parents of blocks that are not settled.
use mathlib.Core.Bool.{false≢true}
use strevm.Base.{inr, ◌∙◌, sym, inl, Option-cases, ℕ, ◌+◌, ◌≡◌, refl, some, false}
use strevm.Blocks.{Memory, height}
use strevm.Blocks.Settlement.{is_settled, parent_block}
use strevm.Blocks.Chain.{IsChain}

pub parent_of_unsettled :
    (m : Memory) (p : ℕ)
    → IsChain m
    → is_settled m p ≡ false
    → (q : ℕ) × (parent_block m p ≡ some q) × (height m q + 1 ≡ height m p)
unfolding is_settled parent_block
parent_of_unsettled m p chain open_block = elim (Option-cases (m.block p).ancestry) [
  | inl closed ↦ absurd (false≢true (sym open_block ∙ rw closed refl))
  | inr (a, e) ↦ let (q, parent, lower) = chain.linked p a e in (q, rw e parent, lower)
]
