-- ===== src/Sae/Builder/Settled.antt =====
-- `lastToSettle` of sae/block_builder.go: the checks of the time of a block, and what it settles.
use strevm.Base.{◌<◌, ◌≡◌, ◌≤◌, ℕ, ◌+◌, ◌-◌, ◌^◌, false}
use strevm.Params.{tau_seconds}
use strevm.ProxyTime.{Instant}
use strevm.Hook.{Header, Points}
use strevm.Blocks.{Memory}
use strevm.Blocks.Settlement.{precise_time, instant_after}
use strevm.Sae.Builder.{max_future_block_seconds}

-- The instant by which the execution of a block has to end for a block of the header to settle it.
abbrev pub settle_at : Points → Header → Instant
settle_at hooks hdr = record (precise_time hooks hdr) {
  unix = (precise_time hooks hdr).unix - tau_seconds;
}

-- The end of the range of times that a node admits.
abbrev pub latest : Instant → Instant
latest now = record now { unix = now.unix + max_future_block_seconds }

-- The seconds of a header are an int64 that is not under the minimum.
abbrev pub IsPositive : Header → Type 0
IsPositive hdr = (tau_seconds ≤ hdr.time) × (hdr.time < 2 ^ 63)

-- The time of a block is admitted.
pub record IsAdmitted (hooks : Points) (m : Memory) (hdr : Header) (parent : ℕ) (now : Instant)
    : Type 0 where
  pub minimum : IsPositive hdr
  pub not_before :
      instant_after (precise_time hooks (m.block parent).header) (precise_time hooks hdr) ≡ false
  pub not_after : instant_after (precise_time hooks hdr) (latest now) ≡ false
