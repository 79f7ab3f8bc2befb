-- ===== src/Blocks/Settlement/LastToSettle.antt =====
-- `LastToSettleAt` of blocks/settlement.go, the whole function.
use strevm.Blocks.Settlement.Chosen.{settle_loop_lem, IsLastToSettle}
use strevm.ProxyTime.Convert.{of_lem, in_nanoseconds}
use strevm.Blocks.Chain.{IsChain}
use strevm.Base.{
  ◌+◌, if◌then◌else◌, IsU64, ok, refl, arith, ◌<◌, Bool, ℕ, ◌≡◌, true, false, none, some,
}
use strevm.ProxyTime
use strevm.ProxyTime.{nanoseconds_per_second, Instant, compare_time}
use strevm.Hook.{Points}
use strevm.Blocks.{height, Memory}
use strevm.Blocks.Settlement.{last_to_settle_at, settle_loop}

last_to_settle_at-eq :
    (hooks : Points) (m : Memory) (settle_at : Instant) (gas : ProxyTime.Time) (parent b : ℕ)
    (known : Bool)
    → ProxyTime.of settle_at ≡ ok gas
    → settle_loop hooks m settle_at gas (height m parent + 2) (some parent) true
      ≡ some (ok (some b, known))
    → last_to_settle_at hooks m settle_at parent
      ≡ some (ok (if known then (some b, true) else (none, false)))
unfolding last_to_settle_at
last_to_settle_at-eq hooks m settle_at gas parent b true e run =
    rw (e, last_to_settle_at) (rw run refl)
last_to_settle_at-eq hooks m settle_at gas parent b false e run =
    rw (e, last_to_settle_at) (rw run refl)

-- `LastToSettleAt` on a chain of blocks always ends without an error. If it reports that settlement
-- is possible, it returns a block that is settled or ends its execution by the given time, such
-- that no block between it and the parent is settled or ends by then, and the next one is known
-- not to. Otherwise it returns nil, and below the block that would be chosen the next one may still
-- end in time.
pub last_to_settle_at_lem :
    (hooks : Points) (m : Memory) (settle_at : Instant) (parent : ℕ)
    → IsChain m
    → IsU64 settle_at.unix
    → settle_at.nanosecond < nanoseconds_per_second
    → (b : ℕ) × (known : Bool) × (last_to_settle_at hooks m settle_at parent
        ≡ some (ok (if known then (some b, true) else (none, false))))
      × IsLastToSettle hooks m settle_at (in_nanoseconds settle_at) parent b true known
last_to_settle_at_lem hooks m settle_at parent chain hu hn =
    let gas = (of_lem settle_at hu hn).0 in
    let (b, known, run, c) =
      settle_loop_lem hooks m settle_at (in_nanoseconds settle_at) (height m parent + 2) parent true
        chain (omega arith) in
    (b, known, last_to_settle_at-eq hooks m settle_at _ parent b known gas run, c)
