-- ===== src/Blocks/Access/Resolved.antt =====
-- What a number or a hash resolves to in blocks/access.go.
use strevm.Base.{
  not, ◌&&◌, ==_iff, ◌∙◌, ◌==◌, ap, ltb, Bool, Outcome, ◌≡◌, Option, ℕ, ◌≤◌, refl, ok, some, none,
  ok-injective, sym, Option-cases, Bool-cases, inl, inr, true, arith, bind_inverts,
}
use strevm.Blocks.{Block}
use strevm.Blocks.Access.{
  Chain, BlockNumber, pending, latest, safe, finalized, negative, explicit, resolve_rpc_number,
  resolve_hash, resolve_rpc_number_or_hash, from_hash, from_number_or_hash,
}

-- The frontier is in order, and only canonical blocks that are accepted are written to the database.
pub record ChainLaws (c : Chain) : Type 0 where
  pub settled_executed : c.last_settled ≤ c.last_executed
  pub executed_accepted : c.last_executed ≤ c.last_accepted
  pub written :
      (h n : ℕ)
      → c.read_header_number h ≡ some n
      → (n ≤ c.last_accepted) × (c.read_canonical_hash n ≡ h)

module _ (c : Chain) (laws : ChainLaws c) where
  resolve_rpc_number-accepted :
      (bn : BlockNumber) (n : ℕ) → resolve_rpc_number c bn ≡ ok n → n ≤ c.last_accepted
  unfolding resolve_rpc_number
  resolve_rpc_number-accepted pending n = λ run. omega (arith, ok-injective run)
  resolve_rpc_number-accepted latest n =
      λ run. omega (arith, ok-injective run, laws.executed_accepted)
  resolve_rpc_number-accepted safe n =
      λ run. omega (arith, ok-injective run, laws.executed_accepted, laws.settled_executed)
  resolve_rpc_number-accepted finalized n =
      λ run. omega (arith, ok-injective run, laws.executed_accepted, laws.settled_executed)
  resolve_rpc_number-accepted negative n = λ run. absurd (ground arith)
  resolve_rpc_number-accepted (explicit k) n = elim (Bool-cases (ltb c.last_accepted k)) [
    | inl future ↦ rw (future, resolve_rpc_number) (λ run. absurd (ground arith))
    | inr past ↦ rw (past, resolve_rpc_number) (λ run. ground (arith, past, ok-injective run))
  ]

  -- The two components of what is resolved.
  abbrev pair : ℕ → ℕ → Outcome (ℕ × ℕ)
  pair n h = ok (n, h)

  pair-injective : (n h n' h' : ℕ) → pair n h ≡ pair n' h' → (n ≡ n') × (h ≡ h')
  pair-injective n h n' h' e =
      (ap (λ (x : ℕ × ℕ). x.0) (ok-injective e), ap (λ (x : ℕ × ℕ). x.1) (ok-injective e))

  resolve_hash-canonical :
      (hash n h : ℕ) → resolve_hash c hash true ≡ pair n h → c.read_canonical_hash n ≡ h
  unfolding resolve_hash
  resolve_hash-canonical hash n h = elim (Option-cases (c.consensus_critical_block hash)) [
    | inr (b, found) ↦
        rw (found, resolve_hash)
          (elim (Bool-cases (hash == c.read_canonical_hash b.header.number)) [
            | inl same ↦ rw same (λ run.
                let (e, e') = pair-injective b.header.number hash n h run in
                ap c.read_canonical_hash (sym e)
                ∙ sym ((==_iff hash (c.read_canonical_hash b.header.number)).0 same)
                ∙ e')
            | inr other ↦ rw other (λ run. absurd (ground arith))
          ])
    | inl missing ↦
        rw (missing, resolve_hash)
          (elim (Option-cases (c.read_header_number hash)) [
            | inl unknown ↦ rw unknown (λ run. absurd (ground arith))
            | inr (k, known) ↦ rw known (λ run.
                let (e, e') = pair-injective k hash n h run in
                ap c.read_canonical_hash (sym e) ∙ (laws.written hash k known).1 ∙ e')
          ])
  ]

  -- What is resolved by a number, or by a hash that is required to be canonical, is the canonical block
  -- of its height; a number resolves to a height that is accepted.
  pub resolve_rpc_number_or_hash-canonical :
      (bn : Option BlockNumber) (hash : Option ℕ) (require_canonical : Bool) (n h : ℕ)
      → resolve_rpc_number_or_hash c bn hash require_canonical ≡ ok (n, h)
      → ((hash ≡ none → (n ≤ c.last_accepted) × (c.read_canonical_hash n ≡ h))
          × (require_canonical ≡ true → c.read_canonical_hash n ≡ h))
  unfolding resolve_rpc_number_or_hash
  resolve_rpc_number_or_hash-canonical (some bn) (some hash) req n h run = absurd (ground arith)
  resolve_rpc_number_or_hash-canonical none none req n h run = absurd (ground arith)
  resolve_rpc_number_or_hash-canonical (some bn) none req n h run =
      let (k, found, made) = bind_inverts (resolve_rpc_number c bn) _ (n, h) run in
      let (e, e') = pair-injective k (c.read_canonical_hash k) n h made in
      let low = resolve_rpc_number-accepted bn k found in
      let same : c.read_canonical_hash n ≡ h = ap c.read_canonical_hash (sym e) ∙ e' in
      ((λ x. (omega (arith, low, e), same)), λ x. same)
  resolve_rpc_number_or_hash-canonical none (some hash) req n h run = (
    (λ x. absurd (ground arith)),
    λ x. resolve_hash-canonical hash n h (ap (resolve_hash c hash) (sym x) ∙ run),
  )

module _ (c : Chain) where
  -- `FromNumberOrHash` on a hash is `FromHash`.
  from_number_or_hash-eq-from_hash {ℓ} :
      {A : Type ℓ} (from_db : ℕ → ℕ → Outcome (Option A)) (from_consensus : Block → Option A)
      (hash : ℕ) (require_canonical : Bool)
      → from_number_or_hash c from_db from_consensus none (some hash) require_canonical
        ≡ from_hash c from_db from_consensus hash require_canonical
  unfolding from_number_or_hash from_hash resolve_rpc_number_or_hash resolve_hash
  from_number_or_hash-eq-from_hash from_db from_consensus hash req =
      elim (Option-cases (c.consensus_critical_block hash)) [
        | inr (b, found) ↦
            rw (found, from_number_or_hash, resolve_rpc_number_or_hash, resolve_hash, from_hash)
              (elim (Bool-cases (req && not (hash == c.read_canonical_hash b.header.number))) [
                | inl refused ↦ rw (refused, resolve_hash) refl
                | inr passed ↦ rw (passed, resolve_hash) (rw found refl)
              ])
        | inl missing ↦
            rw (missing, from_number_or_hash, resolve_rpc_number_or_hash, resolve_hash, from_hash)
              (elim (Option-cases (c.read_header_number hash)) [
                | inl unknown ↦ rw (unknown, resolve_hash) refl
                | inr (n, known) ↦ rw (known, resolve_hash) (rw missing refl)
              ])
      ]
