-- ===== src/Sae/Recovery/Ended.antt =====
-- `extend` of sae/recovery.go goes down to the block that is settled, and ends there.
use strevm.Hook.{Header, Points}
use strevm.Base.{
  length-append, is_panic, is_err, is_ok, Outcome-cases, Outcome-cases, length, Error, arith, List,
  Option, ℕ, ◌≡◌, ◌≤◌, ◌<◌, ◌+◌, suc, zero, refl, sym, ap, ◌∙◌, ok, err, panic, some, ◌⊎◌, inl, inr,
  ◌∷◌, [], ◌++◌,
}
use mathlib.Core.List.{append_assoc}
use mathlib.Core.Path.{subst}
use strevm.ProxyTime
use strevm.Blocks.Execution.{Database}
use strevm.Blocks.{Memory, height}
use strevm.Sae.Access.{EthBlock}
use strevm.Sae.Recovery.{Critical, extend, extend_step}
use strevm.Sae.Recovery.Kept.{Keeps, Keeps-trans}
use strevm.Sae.Recovery.Extended.{EndsLate, EndsInTime, IsReady, GoesDown, Stops, extend_step_lem}

module _ (db : Database) (hooks : Points) (read_block : db.Disk → ℕ → ℕ → Option EthBlock)
    (read_canonical_hash : db.Disk → ℕ → ℕ) (last_synchronous : ℕ) where
  abbrev pub Late : Memory → ProxyTime.Time → ℕ → Type 0
  Late m at p = EndsLate db hooks read_block read_canonical_hash last_synchronous m at p

  -- Blocks that go up by one from a height, and that all end late.
  abbrev pub Climbs : Memory → ProxyTime.Time → ℕ → List ℕ → Type 0
  Climbs m at h [] = Unit {0}
  Climbs m at h (b ∷ bs) = (height m b ≡ h + 1) × Late m at b × Climbs m at (h + 1) bs

  -- What the loop adds: the blocks down to the first one that is synchronous or ends in time.
  pub record IsExtended (at : ProxyTime.Time) (s t : Critical) : Type 0 where
    pub in_time :
        EndsInTime db hooks read_block read_canonical_hash last_synchronous t.memory at t.last
    pub added : List ℕ
    pub before : t.before ≡ added ++ s.before
    pub climbs : Climbs t.memory at (height t.memory t.last) added
    pub reaches : height t.memory t.last + length added ≡ height s.memory s.last
    pub kept : Keeps s.next s.memory t.memory
    pub next : s.next ≤ t.next

  Climbs-snoc :
      (m : Memory) (at : ProxyTime.Time) (h b : ℕ) (xs : List ℕ)
      → Climbs m at h xs
      → height m b ≡ h + length xs + 1
      → Late m at b
      → Climbs m at h (xs ++ b ∷ [])
  Climbs-snoc m at h b [] up top late = (omega arith, late, tt)
  Climbs-snoc m at h b (x ∷ xs) (here, x_late, up) top late =
      (here, x_late, Climbs-snoc m at (h + 1) b xs up (omega arith) late)

  Stops-IsExtended :
      (at : ProxyTime.Time) (s t : Critical)
      → IsReady db hooks read_block read_canonical_hash last_synchronous s
      → Stops db hooks read_block read_canonical_hash last_synchronous at s t
      → IsExtended at s t
  Stops-IsExtended at s t ready st =
      let (same, exec, sync) = st.kept s.last ready.fresh in
      let same_height : height t.memory s.last ≡ height s.memory s.last =
        ap (λ (h : Header). h.number) same in
      let same_last : height t.memory t.last ≡ height t.memory s.last =
        ap (λ p. height t.memory p) st.last in
      record {
        in_time =
            subst
              (λ p.
                EndsInTime db hooks read_block read_canonical_hash last_synchronous t.memory at p)
              (sym st.last)
              (elim (st.in_time) [
                | inl synchronous ↦ inl (sync ∙ synchronous)
                | inr (e, executed, ends) ↦ inr (e, exec ∙ executed, ends)
              ]);
        added = [];
        before = st.before;
        climbs = tt;
        reaches = omega arith;
        kept = st.kept;
        next = st.next;
      }

  GoesDown-IsExtended :
      (at : ProxyTime.Time) (s u t : Critical)
      → IsReady db hooks read_block read_canonical_hash last_synchronous s
      → GoesDown db hooks read_block read_canonical_hash last_synchronous at s u
      → IsExtended at u t
      → IsExtended at s t
  GoesDown-IsExtended at s u t ready g x =
      let kept =
        Keeps-trans s.next s.memory u.memory t.memory g.kept
          (λ q below. x.kept q (omega (arith, g.next))) in
      let (same, exec, sync) = kept s.last ready.fresh in
      let same_height : height t.memory s.last ≡ height s.memory s.last =
        ap (λ (h : Header). h.number) same in
      let (e, executed, late) = g.late in
      record {
        in_time = x.in_time;
        added = x.added ++ s.last ∷ [];
        before =
            x.before
            ∙ ap (◌++◌ x.added) g.pushed
            ∙ sym (append_assoc x.added (s.last ∷ []) s.before);
        climbs =
            Climbs-snoc t.memory at (height t.memory t.last) s.last x.added x.climbs
              (omega (arith, g.down, x.reaches)) (e, exec ∙ executed, late);
        reaches = omega (arith, length-append x.added (s.last ∷ []), g.down, x.reaches);
        kept = kept;
        next = omega (arith, g.next, x.next);
      }

  -- With more rounds than the height of the last of the blocks, `extend` does not run out. It returns an
  -- error, panics, or adds the blocks below, each the next one down and each with an execution that ends
  -- after the time, up to and including the first that is synchronous or ends in time; the blocks that
  -- were there stay what they were.
  pub extend_lem :
      (rounds : ℕ) (d : db.Disk) (at : ProxyTime.Time) (s : Critical)
      → ((d : db.Disk) (n : ℕ) (b : EthBlock)
          → read_block d (read_canonical_hash d n) n ≡ some b
          → b.header.number ≡ n)
      → IsReady db hooks read_block read_canonical_hash last_synchronous s
      → height s.memory s.last < rounds
      → ((t : Critical) × (extend db hooks read_block read_canonical_hash last_synchronous rounds d
              at s
            ≡ some (ok t))
          × IsExtended at s t)
        ⊎ ((why : Error) × (extend db hooks read_block read_canonical_hash last_synchronous rounds d
                at s
              ≡ some (err why)))
        ⊎ (extend db hooks read_block read_canonical_hash last_synchronous rounds d at s
            ≡ some panic)
  unfolding extend
  extend_lem zero d at s numbered ready enough = absurd (omega arith)
  extend_lem (suc rounds) d at s numbered ready enough =
      elim (Outcome-cases
        (extend_step db hooks read_block read_canonical_hash last_synchronous d at s)) [
          | is_panic run ↦ inr (inr (rw (run, extend) refl))
          | is_err why run ↦ inr (inl (why, rw (run, extend) refl))
          | is_ok (t, done) run ↦
              elim (extend_step_lem db hooks read_block read_canonical_hash last_synchronous
                numbered d at s t done ready run) [
                  | inl (is_done, st) ↦
                      inl (t, rw (run, extend) (rw is_done refl), Stops-IsExtended at s t ready st)
                  | inr (not_done, g) ↦
                      elim (extend_lem rounds d at t numbered g.ready (omega (arith, g.down))) [
                        | inl (u, more, x) ↦ inl (
                          u,
                          rw (run, extend) (rw not_done more),
                          GoesDown-IsExtended at s t u ready g x,
                        )
                        | inr (inl (why, fails)) ↦
                            inr (inl (why, rw (run, extend) (rw not_done fails)))
                        | inr (inr panics) ↦ inr (inr (rw (run, extend) (rw not_done panics)))
                      ]
                ]
        ]
