-- ===== src/Sae/Recovery/Extended.antt =====
-- The loop `extend` of sae/recovery.go ends at the block that is settled.
use strevm.WorstCase.Returned.{deref_inverts}
use strevm.Hook.{Header, Points}
use strevm.Base.{
  ==_iff, add_u64, ◌==◌, sub_u64, arith, Bool, u64_mod, Option, ℕ, ◌≡◌, ◌≤◌, ◌<◌, ◌+◌, refl, ap,
  ◌∙◌, ok, some, ◌⊎◌, inl, inr, ◌∷◌, true, false, Bool-cases, bind_inverts, ok-injective,
}
use mathlib.Core.Path.{subst}
use strevm.ProxyTime
use strevm.ProxyTime.{compare_time}
use strevm.Blocks.Execution.{Database}
use strevm.Blocks.Settlement.{is_settled, is_gt}
use strevm.Blocks.{Memory, height, ExecutionResults}
use strevm.WorstCase.{deref}
use strevm.Sae.Access.{EthBlock}
use strevm.Sae.Recovery.{
  Critical, extend_step, extend_once, read_parent, settle_parent, settle_last, mark_blackhole,
  restored_block,
}
use strevm.Sae.Recovery.Kept.{Keeps, Keeps-trans, mark_blackhole-Keeps, restored_block-Keeps}

above_next : (h base : ℕ) → base < h → h < u64_mod → (h == add_u64 base 1) ≡ false → base + 1 < h
above_next h base over fits apart = ground arith

module _ (db : Database) (hooks : Points) (read_block : db.Disk → ℕ → ℕ → Option EthBlock)
    (read_canonical_hash : db.Disk → ℕ → ℕ) (last_synchronous : ℕ) where
  -- The executed time of a block is after the given one, or not.
  abbrev pub EndsLate : Memory → ProxyTime.Time → ℕ → Type 0
  EndsLate m at p =
      (e : ExecutionResults) × ((m.block p).execution ≡ some e)
      × (is_gt (compare_time e.by_gas.time at) ≡ true)

  abbrev pub EndsInTime : Memory → ProxyTime.Time → ℕ → Type 0
  EndsInTime m at p =
      ((m.block p).synchronous ≡ true)
      ⊎ ((e : ExecutionResults) × ((m.block p).execution ≡ some e)
          × (is_gt (compare_time e.by_gas.time at) ≡ false))

  -- The blocks in memory stand below the fresh pointer, the last synchronous one is there, and the last of
  -- the blocks is above that or synchronous.
  pub record IsReady (s : Critical) : Type 0 where
    pub synchronous : (s.memory.block last_synchronous).synchronous ≡ true
    pub there : last_synchronous < s.next
    pub fresh : s.last < s.next
    pub above :
        ((s.memory.block s.last).synchronous ≡ true)
        ⊎ (height s.memory last_synchronous < height s.memory s.last)
    pub fits : height s.memory s.last < u64_mod

  -- A round that goes on: one block down, from one that ends late.
  pub record GoesDown (at : ProxyTime.Time) (s t : Critical) : Type 0 where
    pub ready : IsReady t
    pub kept : Keeps s.next s.memory t.memory
    pub next : s.next ≤ t.next
    pub down : height t.memory t.last + 1 ≡ height s.memory s.last
    pub late : EndsLate s.memory at s.last
    pub pushed : t.before ≡ s.last ∷ s.before

  -- A round that ends the loop.
  pub record Stops (at : ProxyTime.Time) (s t : Critical) : Type 0 where
    pub kept : Keeps s.next s.memory t.memory
    pub next : s.next ≤ t.next
    pub in_time : EndsInTime s.memory at s.last
    pub last : t.last ≡ s.last
    pub before : t.before ≡ s.before

  settle_last-Stops :
      (at : ProxyTime.Time) (s t : Critical) (done : Bool)
      → EndsInTime s.memory at s.last
      → settle_last db hooks read_block read_canonical_hash last_synchronous s ≡ ok (t, done)
      → (done ≡ true) × Stops at s t
  unfolding settle_last
  settle_last-Stops at s t done ends run = elim (Bool-cases (is_settled s.memory s.last)) [
    | inl settled ↦
        subst (λ (r : Critical × Bool). (r.1 ≡ true) × Stops at s r.0)
          (ok-injective (rw (settled, settle_last) at run))
          (
            refl,
            record {
              kept = λ q below. (refl, refl, refl);
              next = omega arith;
              in_time = ends;
              last = refl;
              before = refl;
            },
          )
    | inr not_settled ↦
        let (m, marks, returns) =
          bind_inverts (mark_blackhole s.memory s.last) _ (t, done)
            (rw (not_settled, settle_last) at run) in
        subst (λ (r : Critical × Bool). (r.1 ≡ true) × Stops at s r.0) (ok-injective returns)
          (
            refl,
            record {
              kept = mark_blackhole-Keeps s.next s.last s.memory m marks;
              next = omega arith;
              in_time = ends;
              last = refl;
              before = refl;
            },
          )
  ]

  -- Marking the parent that was read keeps what a round has done.
  settle_parent-GoesDown :
      (at : ProxyTime.Time) (child_settled : Bool) (s u t : Critical) (done : Bool)
      → GoesDown at s u
      → settle_parent db hooks read_block read_canonical_hash last_synchronous child_settled u
        ≡ ok (t, done)
      → (done ≡ false) × GoesDown at s t
  unfolding settle_parent
  settle_parent-GoesDown at false s u t done g run =
      subst (λ (r : Critical × Bool). (r.1 ≡ false) × GoesDown at s r.0) (ok-injective run)
        (refl, g)
  settle_parent-GoesDown at true s u t done g run =
      let (m, marks, returns) = bind_inverts (mark_blackhole u.memory u.last) _ (t, done) run in
      let kept = mark_blackhole-Keeps u.next u.last u.memory m marks in
      let (same_ls, exec_ls, sync_ls) = kept last_synchronous g.ready.there in
      let (same_last, exec_last, sync_last) = kept u.last g.ready.fresh in
      let same_height : height m u.last ≡ height u.memory u.last =
        ap (λ (h : Header). h.number) same_last in
      let same_base : height m last_synchronous ≡ height u.memory last_synchronous =
        ap (λ (h : Header). h.number) same_ls in
      subst (λ (r : Critical × Bool). (r.1 ≡ false) × GoesDown at s r.0) (ok-injective returns)
        (
          refl,
          record {
            ready = record {
              synchronous = sync_ls ∙ g.ready.synchronous;
              there = g.ready.there;
              fresh = g.ready.fresh;
              above = elim (g.ready.above) [
                | inl sync ↦ inl (sync_last ∙ sync)
                | inr over ↦ inr (omega arith)
              ];
              fits = omega (arith, g.ready.fits);
            };
            kept =
                Keeps-trans s.next s.memory u.memory m g.kept
                  (λ q below. kept q (omega (arith, g.next)));
            next = g.next;
            down = omega (arith, g.down);
            late = g.late;
            pushed = g.pushed;
          },
        )

  over_base :
      (s : Critical)
      → IsReady s
      → (s.memory.block s.last).synchronous ≡ false
      → height s.memory last_synchronous < height s.memory s.last
  over_base s ready async = elim (ready.above) [
    | inl sync ↦ absurd (ground arith)
    | inr over ↦ over
  ]

  reaches_base :
      (at : ProxyTime.Time) (s : Critical)
      → IsReady s
      → height s.memory last_synchronous + 1 ≡ height s.memory s.last
      → EndsLate s.memory at s.last
      → GoesDown at s (record s { last = last_synchronous; before = s.last ∷ s.before })
  reaches_base at s ready adjacent late = record {
    ready = record {
      synchronous = ready.synchronous;
      there = ready.there;
      fresh = ready.there;
      above = inl ready.synchronous;
      fits = omega (arith, ready.fits);
    };
    kept = λ q below. (refl, refl, refl);
    next = omega arith;
    down = adjacent;
    late = late;
    pushed = refl;
  }

  module _
      (numbered : (d : db.Disk) (n : ℕ) (b : EthBlock)
        → read_block d (read_canonical_hash d n) n ≡ some b
        → b.header.number ≡ n) where
    read_parent-GoesDown :
        (d : db.Disk) (at : ProxyTime.Time) (s t : Critical) (done : Bool)
        → IsReady s
        → height s.memory last_synchronous + 1 < height s.memory s.last
        → EndsLate s.memory at s.last
        → read_parent db hooks read_block read_canonical_hash last_synchronous d s ≡ ok (t, done)
        → (done ≡ false) × GoesDown at s t
    unfolding read_parent
    read_parent-GoesDown d at s t done ready high late run =
        let number = sub_u64 (height s.memory s.last) 1 in
        let (m, restores, settles) =
          bind_inverts
            (restored_block db hooks read_block read_canonical_hash last_synchronous d s.memory
              s.next (sub_u64 (height s.memory s.last) 1))
            _ (t, done) run in
        let (kept, at_number) =
          restored_block-Keeps db hooks read_block read_canonical_hash last_synchronous d s.memory m
            s.next (sub_u64 (height s.memory s.last) 1)
            (numbered d (sub_u64 (height s.memory s.last) 1)) restores in
        let (same_ls, exec_ls, sync_ls) = kept last_synchronous ready.there in
        let same_base : height m last_synchronous ≡ height s.memory last_synchronous =
          ap (λ (h : Header). h.number) same_ls in
        settle_parent-GoesDown at (is_settled m s.last) s
          (record { memory = m; next = s.next + 1; last = s.next; before = s.last ∷ s.before }) t
          done
          (record {
            ready = record {
              synchronous = sync_ls ∙ ready.synchronous;
              there = omega (arith, ready.there);
              fresh = omega arith;
              above = inr (omega (arith, ready.fits));
              fits = omega (arith, ready.fits);
            };
            kept = kept;
            next = omega arith;
            down = omega (arith, ready.fits);
            late = late;
            pushed = refl;
          })
          settles

    -- A round on a block that is executed.
    extend_once_lem :
        (d : db.Disk) (at : ProxyTime.Time) (s t : Critical) (e : ExecutionResults) (done : Bool)
        → IsReady s
        → (s.memory.block s.last).synchronous ≡ false
        → (s.memory.block s.last).execution ≡ some e
        → extend_once db hooks read_block read_canonical_hash last_synchronous d at s e
          ≡ ok (t, done)
        → ((done ≡ true) × Stops at s t) ⊎ ((done ≡ false) × GoesDown at s t)
    unfolding extend_once
    extend_once_lem d at s t e done ready async executed run =
        elim (Bool-cases (is_gt (compare_time e.by_gas.time at))) [
          | inl late ↦
              let over : height s.memory last_synchronous < height s.memory s.last =
                over_base s ready async in
              elim (Bool-cases
                (height s.memory s.last == add_u64 (height s.memory last_synchronous) 1)) [
                  | inl adjacent ↦ inr (
                      subst (λ (r : Critical × Bool). (r.1 ≡ false) × GoesDown at s r.0)
                        (ok-injective (rw adjacent at (rw (late, extend_once) at run)))
                        (
                          refl,
                          reaches_base at s ready
                              (omega (
                                arith,
                                (==_iff (height s.memory s.last)
                                      (add_u64 (height s.memory last_synchronous) 1)).0
                                    adjacent,
                                ready.fits,
                              ))
                              (e, executed, late),
                        ))
                  | inr apart ↦ inr (
                      read_parent-GoesDown d at s t done ready
                        (above_next (height s.memory s.last) (height s.memory last_synchronous) over
                          ready.fits apart)
                        (e, executed, late) (rw apart at (rw (late, extend_once) at run)))
                ]
          | inr in_time ↦
              inl (settle_last-Stops at s t done (inr (e, executed, in_time)) (rw in_time at run))
        ]

    pub extend_step_lem :
        (d : db.Disk) (at : ProxyTime.Time) (s t : Critical) (done : Bool)
        → IsReady s
        → extend_step db hooks read_block read_canonical_hash last_synchronous d at s ≡ ok (t, done)
        → ((done ≡ true) × Stops at s t) ⊎ ((done ≡ false) × GoesDown at s t)
    unfolding extend_step
    extend_step_lem d at s t done ready run =
        elim (Bool-cases (s.memory.block s.last).synchronous) [
          | inl sync ↦ inl (
              subst (λ (r : Critical × Bool). (r.1 ≡ true) × Stops at s r.0)
                (ok-injective (rw (sync, extend_step) at run))
                (
                  refl,
                  record {
                    kept = λ q below. (refl, refl, refl);
                    next = omega arith;
                    in_time = inl sync;
                    last = refl;
                    before = refl;
                  },
                ))
          | inr async ↦
              let (e, executed, rest) =
                bind_inverts (deref (s.memory.block s.last).execution) _ (t, done)
                  (rw (async, extend_step) at run) in
              extend_once_lem d at s t e done ready async
                (deref_inverts (s.memory.block s.last).execution e executed) rest
        ]
