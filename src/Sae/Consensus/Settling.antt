-- ===== src/Sae/Consensus/Settling.antt =====
-- The loops of `AcceptBlock` in sae/consensus.go: the blocks that are settled, and those forgotten.
use strevm.Base.{
  Error, Option, ==_iff, ◌∙◌, ap, arith, ◌∙◌, ◌⊎◌, arith, ◌≢◌, ◌≡◌, List, ℕ, refl, ok, some, none,
  ok-injective, sym, is_ok, is_err, is_panic, Outcome-cases, Option-cases, Bool-cases, inl, inr,
  true, false, [], ◌∷◌, ◌==◌,
}
use mathlib.Core.Path.{subst}
use strevm.Blocks.{Memory, store}
use strevm.Blocks.Settlement.{mark_settled_at, mark_settled, is_settled}
use strevm.Blocks.LifeCycle.{lookup}
use strevm.Sae.Consensus.{delete, forget, mark_all}

differs : (a b : ℕ) → a ≢ b → (a == b) ≡ false
differs a b ne = elim (Bool-cases (a == b)) [
  | inl same ↦ absurd (ne ((==_iff a b).0 same))
  | inr other ↦ other
]

-- A key that is deleted is not found, and deletion finds nothing that was not there.
lookup-delete : (k : ℕ) (l : List (ℕ × ℕ)) → lookup (delete k l) k ≡ none
lookup-delete k [] = refl
lookup-delete k ((j, p) ∷ rest) = elim (Bool-cases (j == k)) [
  | inl e ↦ rw e (lookup-delete k rest)
  | inr e ↦ rw e (rw e (lookup-delete k rest))
]

pub delete-keeps : (k h : ℕ) (l : List (ℕ × ℕ)) → lookup l h ≡ none → lookup (delete k l) h ≡ none
delete-keeps k h [] = λ e. refl
delete-keeps k h ((j, p) ∷ rest) = elim (Bool-cases (j == h)) [
  | inl e ↦ rw e (λ found. absurd (ground arith))
  | inr e ↦ rw e (λ gone. elim (Bool-cases (j == k)) [
    | inl x ↦ rw x (delete-keeps k h rest gone)
    | inr x ↦ rw (x, e) (delete-keeps k h rest gone)
  ])
]

pub delete-others : (k h : ℕ) (l : List (ℕ × ℕ)) → h ≢ k → lookup (delete k l) h ≡ lookup l h
delete-others k h [] ne = refl
delete-others k h ((j, p) ∷ rest) ne = elim (Bool-cases (j == k)) [
  | inl x ↦
      let other : (j == h) ≡ false = differs j h (λ e. ne (sym e ∙ (==_iff j k).0 x)) in
      rw (x, other) (delete-others k h rest ne)
  | inr x ↦ elim (Bool-cases (j == h)) [
    | inl e ↦ rw (x, e) refl
    | inr e ↦ rw (x, e) (delete-others k h rest ne)
  ]
]

-- Among the blocks.
abbrev pub Among : ℕ → List ℕ → Type 0
Among s [] = ⊥
Among s (q ∷ rest) = (s ≡ q) ⊎ Among s rest

module _ (m : Memory) (keep : ℕ) where
  forget-keeps :
      (ss : List ℕ) (h : ℕ) (l : List (ℕ × ℕ))
      → lookup l h ≡ none
      → lookup (forget m keep ss l) h ≡ none
  unfolding forget
  forget-keeps [] h l gone = gone
  forget-keeps (s ∷ rest) h l gone = elim (Bool-cases ((m.block s).hash == keep)) [
    | inl e ↦ rw (e, forget) (forget-keeps rest h l gone)
    | inr e ↦
        rw (e, forget)
          (forget-keeps rest h (delete (m.block s).hash l) (delete-keeps (m.block s).hash h l gone))
  ]

  -- Each of the blocks whose hash is not `keep` is forgotten.
  pub forget_lem :
      (ss : List ℕ) (s : ℕ) (l : List (ℕ × ℕ))
      → Among s ss
      → (m.block s).hash ≢ keep
      → lookup (forget m keep ss l) (m.block s).hash ≡ none
  unfolding forget
  forget_lem [] s l among ne = absurd among
  forget_lem (q ∷ rest) s l (inr later) ne = forget_lem rest s _ later ne
  forget_lem (q ∷ rest) s l (inl same) ne =
      let other : ((m.block q).hash == keep) ≡ false =
        differs (m.block q).hash keep (λ e. ne (ap (λ (x : ℕ). (m.block x).hash) same ∙ e)) in
      rw (other, forget)
        (subst
          (λ (x : ℕ).
            lookup (forget m keep rest (delete (m.block x).hash l)) (m.block s).hash ≡ none)
          same (forget-keeps rest (m.block s).hash _ (lookup-delete (m.block s).hash l)))

  -- What is found under `keep` stays.
  pub forget-kept :
      (ss : List ℕ) (l : List (ℕ × ℕ)) → lookup (forget m keep ss l) keep ≡ lookup l keep
  unfolding forget
  forget-kept [] l = refl
  forget-kept (s ∷ rest) l = elim (Bool-cases ((m.block s).hash == keep)) [
    | inl e ↦ rw (e, forget) (forget-kept rest l)
    | inr e ↦
        rw (e, forget)
          (forget-kept rest (delete (m.block s).hash l)
            ∙ delete-others (m.block s).hash keep l
                (λ x. ground (arith, (==_iff (m.block s).hash keep).1 (sym x), e)))
  ]

-- The memory after a block is settled.
abbrev settled_at : Memory → ℕ → Memory
settled_at m s = record (store m s (record (m.block s) { ancestry = none; settled = true })) {
  last_settled = some s;
}

-- The block is settled, what was settled still is, and the hashes are the same.
abbrev Settles : Memory → ℕ → Memory → Type 0
Settles m s m' =
    (is_settled m' s ≡ true)
    × ((p : ℕ) → is_settled m p ≡ true → is_settled m' p ≡ true)
    × ((p : ℕ) → (m'.block p).hash ≡ (m.block p).hash)

settled_at-Settles : (m : Memory) (s : ℕ) → Settles m s (settled_at m s)
unfolding is_settled
settled_at-Settles m s = (
  rw ((==_iff s s).1 refl) refl,
  λ p. elim (Bool-cases (p == s)) [
    | inl same ↦ rw same (λ x. refl)
    | inr other ↦ rw other (λ x. x)
  ],
  λ p. elim (Bool-cases (p == s)) [
    | inl same ↦ rw same (ap (λ (x : ℕ). (m.block x).hash) (sym ((==_iff p s).0 same)))
    | inr other ↦ rw other refl
  ],
)

mark_settled_at-Settles :
    (m m' : Memory) (s : ℕ) → mark_settled_at m s true ≡ ok m' → Settles m s m'
unfolding mark_settled_at mark_settled
mark_settled_at-Settles m m' s = elim (Option-cases (m.block s).ancestry) [
  | inl old ↦ rw (old, mark_settled_at, mark_settled) (λ run. absurd (ground arith))
  | inr (a, fresh) ↦ elim (Bool-cases (m.block s).settled) [
    | inl closed ↦ rw (fresh, closed, mark_settled_at, mark_settled) (λ run. absurd (ground arith))
    | inr open_s ↦
        rw (fresh, open_s, mark_settled_at, mark_settled)
          (λ run. subst (Settles m s) (ok-injective run) (settled_at-Settles m s))
  ]
]

-- The blocks are settled one after the other; what is settled stays so, and nothing but that changes.
pub mark_all-settles :
    (ss : List ℕ) (m m' : Memory)
    → mark_all m ss ≡ ok (m', none)
    → ((s : ℕ) → Among s ss → is_settled m' s ≡ true)
      × ((p : ℕ) → is_settled m p ≡ true → is_settled m' p ≡ true)
      × ((p : ℕ) → (m'.block p).hash ≡ (m.block p).hash)
unfolding mark_all
mark_all-settles [] m m' = λ run.
    let same = ap (λ (x : Memory × Option Error). x.0) (ok-injective run) in
    (
      (λ s among. absurd among),
      (λ p x. subst (λ (y : Memory). is_settled y p ≡ true) same x),
      (λ p. subst (λ (y : Memory). (y.block p).hash ≡ (m.block p).hash) same refl),
    )
mark_all-settles (q ∷ rest) m m' = elim (Outcome-cases (mark_settled_at m q true)) [
  | is_panic e ↦ rw (e, mark_all) (λ run. absurd (ground arith))
  | is_err why e ↦
      rw (e, mark_all)
        (λ run. absurd (ground (arith, ap (λ (x : Memory × Option Error). x.1) (ok-injective run))))
  | is_ok m1 e ↦
      rw (e, mark_all)
        (λ run.
          let (now, before, hashes) = mark_settled_at-Settles m m1 q e in
          let (later, kept, same) = mark_all-settles rest m1 m' run in
          (
            (λ s among. elim among [
              | inl first ↦ kept s (subst (λ (x : ℕ). is_settled m1 x ≡ true) (sym first) now)
              | inr more ↦ later s more
            ]),
            (λ p x. kept p (before p x)),
            (λ p. same p ∙ hashes p),
          ))
]
