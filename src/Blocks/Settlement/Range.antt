-- ===== src/Blocks/Settlement/Range.antt =====
-- `Range` of blocks/settlement.go: the blocks of a half-open interval of heights, in order.
use mathlib.Core.List.{map, reverse, reverse-cons, map-append, reverse-reverse}
use strevm.Base.{
  leb-eq-false, sym, le→leb, ◌∙◌, dec_le, ap, ℕ, zero, suc, ◌+◌, ◌-◌, ◌≡◌, refl, ok, List, [], ◌∷◌,
  ◌++◌, some, arith,
}
use strevm.Blocks.{Memory, height}
use strevm.Blocks.Settlement.{range, collect}
use strevm.Blocks.Settlement.Parents.{parent_of_unsettled}
use strevm.Blocks.Chain.{IsChain, Unsettled, Linked}

-- `n` numbers from `s` up.
abbrev pub count_up : ℕ → ℕ → List ℕ
count_up s zero = []
count_up s (suc n) = s ∷ count_up (s + 1) n

count_up-snoc : (s n : ℕ) → count_up s (suc n) ≡ count_up s n ++ ((s + n) ∷ [])
count_up-snoc s zero = ap (λ (x : ℕ). x ∷ []) (omega arith)
count_up-snoc s (suc n) =
    ap (λ l. s ∷ l)
      (count_up-snoc (s + 1) n ∙ ap (λ (x : ℕ). count_up (s + 1) n ++ (x ∷ [])) (omega arith))

heights_reversed :
    (m : Memory) (x : ℕ) (chain : List ℕ)
    → map (height m) (reverse (x ∷ chain)) ≡ map (height m) (reverse chain) ++ (height m x ∷ [])
heights_reversed m x chain = rw (reverse-cons, map-append) refl

collect_lem :
    (m : Memory) (n s p : ℕ)
    → IsChain m
    → s + n ≡ height m p
    → Unsettled m n (some p)
    → (chain : List ℕ) × (collect m n (some p) ≡ ok chain)
      × (map (height m) (reverse chain) ≡ count_up (s + 1) n)
      × Linked m (some p) chain
unfolding collect
collect_lem m zero s p chain e open_blocks = ([], refl, refl, tt)
collect_lem m (suc zero) s p chain e (open_p, rest) =
    (p ∷ [], refl, ap (λ (x : ℕ). x ∷ []) (omega arith), (refl, tt))
collect_lem m (suc (suc n)) s p chain e (open_p, rest) =
    let (q, parent, lower) = parent_of_unsettled m p chain open_p in
    let (c, run, heights, linked) =
      collect_lem m (suc n) s q chain (omega arith) (rw parent at rest) in
    (
      p ∷ c,
      rw (parent, run) refl,
      heights_reversed m p c
          ∙ rw heights (
              sym (
                count_up-snoc (s + 1) (suc n)
                ∙ ap (λ (x : ℕ). count_up (s + 1) (suc n) ++ (x ∷ [])) (omega arith))),
      (refl, rw parent linked),
    )

-- Where the blocks above `start` are not settled, `Range` returns exactly one block for each height
-- of the half-open interval, in increasing order: read backwards they lead from `end` up the chain.
-- Where `end` is not above `start` it returns none.
pub range_lem :
    (m : Memory) (start end : ℕ)
    → IsChain m
    → Unsettled m (height m end - height m start) (some end)
    → (chain : List ℕ) × (range m start end ≡ ok chain)
      × (map (height m) chain ≡ count_up (height m start + 1) (height m end - height m start))
      × Linked m (some end) (reverse chain)
unfolding range
range_lem m start end chain open_blocks = elim (dec_le (height m end) (height m start)) [
  | yes le ↦
      let none_left : height m end - height m start ≡ 0 = omega arith in
      ([], rw (le→leb _ _ le) refl, rw none_left refl, tt)
  | no gt ↦
      let (c, run, heights, linked) =
        collect_lem m (height m end - height m start) (height m start) end chain (omega arith)
          open_blocks in
      (reverse c, rw (leb-eq-false _ _ gt, run) refl, heights, rw (reverse-reverse c) linked)
]
