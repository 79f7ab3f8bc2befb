-- ===== src/Sae/Consensus/Accepted.antt =====
-- `AcceptBlock` of sae/consensus.go: what is settled, queued and forgotten when it returns no error.
use strevm.Base.{
  Bool, if◌then◌else◌, ◌++◌, Error, Option, ==_iff, ◌∙◌, ap, arith, ◌∙◌, arith, ◌≢◌, ◌≡◌, List, ℕ,
  refl, ok, some, none, ok-injective, sym, Bool-cases, bind_inverts, inl, inr, true, [], ◌∷◌, ◌==◌,
}
use mathlib.Core.Path.{subst}
use strevm.Hook.{Points}
use strevm.Hook.Ops.{StateDb}
use strevm.Blocks.{Memory, Block}
use strevm.Blocks.Settlement.{settles, parent_block, last_settled_of, is_settled}
use strevm.Blocks.Execution.{Database}
use strevm.Blocks.LifeCycle.{lookup}
use strevm.WorstCase.{Chain, deref}
use strevm.SaeExec.{Evm}
use strevm.WorstCase.Returned.{deref_inverts}
use strevm.SaeExec.Rounds.{enqueue_cases}
use strevm.Sae.Consensus.{
  accept_after, finalized_hash, accept_queued, accept_settled, accept_written, with_memory, Vm,
  delete, forget, mark_all, accept_block,
}
use strevm.Sae.Consensus.Settling.{
  Among, delete-keeps, delete-others, forget_lem, forget-kept, mark_all-settles,
}

module _ (db : StateDb) (chain : Chain db) (evm : Evm db) (calculate_price : ℕ → ℕ → ℕ → ℕ)
    (hooks : Points) (store_db : Database) where
  abbrev V : Type 0
  V = Vm db chain evm calculate_price hooks store_db

  -- What holds after a block is accepted, for the blocks that it settles and the last of all that are.
  pub record IsAccepted (v v' : V) (p : ℕ) (settled : List ℕ) (last : ℕ) : Type 0 where
    pub keeps : last_settled_of v'.executor.memory p ≡ some last
    pub accepted : v'.last_accepted ≡ some p
    pub queued : v'.executor.queue ≡ v.executor.queue ++ p ∷ []
    pub settles_all : (s : ℕ) → Among s settled → is_settled v'.executor.memory s ≡ true
    pub forgotten :
        (s : ℕ)
        → Among s settled
        → (v.executor.memory.block s).hash ≢ (v.executor.memory.block last).hash
        → lookup v'.consensus_critical (v.executor.memory.block s).hash ≡ none
    pub kept :
        lookup v'.consensus_critical (v.executor.memory.block last).hash
        ≡ lookup v.consensus_critical (v.executor.memory.block last).hash

  -- The last step of all, with the entry of the block that the parent settled last.
  abbrev last_forgotten : Memory → ℕ → ℕ → List (ℕ × ℕ) → List (ℕ × ℕ)
  last_forgotten m keep q critical =
      if (m.block q).hash == keep then critical else delete (m.block q).hash critical

  last_forgotten-keeps :
      (m : Memory) (keep q h : ℕ) (l : List (ℕ × ℕ))
      → lookup l h ≡ none
      → lookup (last_forgotten m keep q l) h ≡ none
  last_forgotten-keeps m keep q h l gone = elim (Bool-cases ((m.block q).hash == keep)) [
    | inl e ↦ rw e gone
    | inr e ↦ rw e (delete-keeps (m.block q).hash h l gone)
  ]

  last_forgotten-kept :
      (m : Memory) (keep q : ℕ) (l : List (ℕ × ℕ))
      → lookup (last_forgotten m keep q l) keep ≡ lookup l keep
  last_forgotten-kept m keep q l = elim (Bool-cases ((m.block q).hash == keep)) [
    | inl e ↦ rw e refl
    | inr e ↦ rw e (
        delete-others (m.block q).hash keep l
          (λ x. ground (arith, (==_iff (m.block q).hash keep).1 (sym x), e)))
  ]

  accept_settled-inverts :
      (takes_done : Bool) (v v' : V) (p q : ℕ) (settled : List ℕ)
      → accept_settled db chain evm calculate_price hooks store_db takes_done v p settled q
        ≡ ok (v', none)
      → (last : ℕ) × (last_settled_of v.executor.memory p ≡ some last)
        × (record v {
          executor = record v.executor { queue = v.executor.queue ++ p ∷ [] };
          last_accepted = some p;
          consensus_critical =
              last_forgotten v.executor.memory (v.executor.memory.block last).hash q (
                forget v.executor.memory
                  (v.executor.memory.block last).hash
                  settled
                  v.consensus_critical);
        }
            ≡ v')
  unfolding accept_settled accept_queued
  accept_settled-inverts takes_done v v' p q settled =
      elim (enqueue_cases db chain evm calculate_price hooks store_db takes_done v.executor p) [
        | inl refused ↦
            rw refused (λ run.
              absurd (ground (arith, ap (λ (x : V × Option Error). x.1) (ok-injective run))))
        | inr joined ↦ rw joined (λ run.
            let (last, found, made) =
              bind_inverts (deref (last_settled_of v.executor.memory p)) _ (v', none) run in
            (
              last,
              deref_inverts (last_settled_of v.executor.memory p) last found,
              ap (λ (x : V × Option Error). x.0) (ok-injective made),
            ))
      ]

  settled-IsAccepted :
      (takes_done : Bool) (v v' : V) (m' : Memory) (p q : ℕ) (settled : List ℕ)
      → mark_all v.executor.memory settled ≡ ok (m', none)
      → accept_settled db chain evm calculate_price hooks store_db takes_done
          (with_memory db chain evm calculate_price hooks store_db v m')
          p
          settled
          q
        ≡ ok (v', none)
      → (last : ℕ) × IsAccepted v v' p settled last
  settled-IsAccepted takes_done v v' m' p q settled marked run =
      let w = with_memory db chain evm calculate_price hooks store_db v m' in
      let (last, found, e) = accept_settled-inverts takes_done w v' p q settled run in
      let (all, before, hashes) = mark_all-settles settled v.executor.memory m' marked in
      let keep = (m'.block last).hash in
      let critical = forget m' keep settled v.consensus_critical in
      (
        last,
        subst (λ (x : V). IsAccepted v x p settled last) e
            (record {
              keeps = found;
              accepted = refl;
              queued = refl;
              settles_all = all;
              forgotten = λ s among ne.
                  subst (λ (h : ℕ). lookup (last_forgotten m' keep q critical) h ≡ none) (hashes s)
                    (last_forgotten-keeps m' keep q (m'.block s).hash critical (
                      forget_lem m' keep settled s v.consensus_critical among
                        (λ x. ne (sym (hashes s) ∙ x ∙ hashes last))));
              kept =
                  subst
                    (λ (h : ℕ).
                      lookup (last_forgotten m' keep q critical) h ≡ lookup v.consensus_critical h)
                    (hashes last)
                    (last_forgotten-kept m' keep q critical
                      ∙ forget-kept m' keep settled v.consensus_critical);
            }),
      )

  marked-IsAccepted :
      (takes_done : Bool) (v v' : V) (m' : Memory) (p q : ℕ) (settled : List ℕ) (why : Option Error)
      → mark_all v.executor.memory settled ≡ ok (m', why)
      → (elim why [
        | some x ↦ ok (with_memory db chain evm calculate_price hooks store_db v m', some x)
        | none ↦
            accept_settled db chain evm calculate_price hooks store_db takes_done
              (with_memory db chain evm calculate_price hooks store_db v m')
              p
              settled
              q
      ])
        ≡ ok (v', none)
      → (last : ℕ) × IsAccepted v v' p settled last
  marked-IsAccepted takes_done v v' m' p q settled (some x) marked run =
      absurd (ground (arith, ap (λ (y : V × Option Error). y.1) (ok-injective run)))
  marked-IsAccepted takes_done v v' m' p q settled none marked run =
      settled-IsAccepted takes_done v v' m' p q settled marked run

  written-IsAccepted :
      (takes_done : Bool) (v v' : V) (p : ℕ) (settled : List ℕ)
      → accept_written db chain evm calculate_price hooks store_db takes_done v p settled
        ≡ ok (v', none)
      → (last : ℕ) × IsAccepted v v' p settled last
  unfolding accept_written
  written-IsAccepted takes_done v v' p settled run =
      let m = v.executor.memory in
      let (parent, e1, run1) = bind_inverts (deref (parent_block m p)) _ (v', none) run in
      let (q, e2, run2) = bind_inverts (deref (last_settled_of m parent)) _ (v', none) run1 in
      let ((m', why), e3, run3) = bind_inverts (mark_all m settled) _ (v', none) run2 in
      marked-IsAccepted takes_done v v' m' p q settled why e3 run3

  after-IsAccepted :
      (takes_done : Bool) (v v' : V) (p : ℕ) (settled : List ℕ) (why : Option Error)
      → accept_after db chain evm calculate_price hooks store_db takes_done v p settled why
        ≡ ok (v', none)
      → (last : ℕ) × IsAccepted v v' p settled last
  unfolding accept_after
  after-IsAccepted takes_done v v' p settled (some x) run =
      absurd (ground (arith, ap (λ (y : V × Option Error). y.1) (ok-injective run)))
  after-IsAccepted takes_done v v' p settled none run =
      written-IsAccepted takes_done v v' p settled run

  -- When `AcceptBlock` returns no error, the block is the last accepted one and at the end of the queue
  -- of the executor. Each block that it settles is settled in memory and no longer critical for
  -- consensus, except under the hash of the last block that it has settled, whose entry stays.
  pub accept_block-IsAccepted :
      (write_accepted : store_db.Disk → Option ℕ → Block → store_db.Disk × Option Error)
      (takes_done : Bool) (v v' : V) (p : ℕ)
      → accept_block db chain evm calculate_price hooks store_db write_accepted takes_done v p
        ≡ ok (v', none)
      → (settled : List ℕ) × (last : ℕ) × (settles v.executor.memory p ≡ ok settled)
        × IsAccepted v v' p settled last
  unfolding accept_block
  accept_block-IsAccepted write_accepted takes_done v v' p run =
      let m = v.executor.memory in
      let (settled, e1, run1) = bind_inverts (settles m p) _ (v', none) run in
      let (finalized, e2, run2) =
        bind_inverts (finalized_hash db chain evm calculate_price hooks store_db m p settled) _
          (v', none) run1 in
      let left = write_accepted v.executor.disk finalized (m.block p) in
      let (last, a) = after-IsAccepted takes_done _ v' p settled left.1 run2 in
      (
        settled,
        last,
        e1,
        record {
          keeps = a.keeps;
          accepted = a.accepted;
          queued = a.queued;
          settles_all = a.settles_all;
          forgotten = a.forgotten;
          kept = a.kept;
        },
      )
