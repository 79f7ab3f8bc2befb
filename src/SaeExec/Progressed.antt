-- ===== src/SaeExec/Progressed.antt =====
-- What a part of `Execute` of saexec/execution.go changes: the gas, the clock that ticks with it, and
-- the interim execution time of the block.
use strevm.Base.{
  inr, inl, Bool-cases, ◌==◌, ◌≢◌, none, sym, ==_iff, ap, ◌*◌, add_u64, u64_mod, ◌∙◌, ◌<◌, some,
  arith, ◌+◌, ◌≤◌, ◌≡◌, ◌++◌, ℕ, List, refl, ok,
}
use mathlib.Core.Option.{some-injective}
use strevm.ProxyTime
use strevm.ProxyTime.{units}
use strevm.ProxyTime.Advance.{tick_lem}
use strevm.Hook.Ops.{StateDb}
use strevm.Blocks.{Memory, Block}
use strevm.Blocks.Execution.{set_interim_execution_time}
use strevm.Blocks.LifeCycle.Silent.{NotBaseFee, NotBaseFee-append}
use strevm.Blocks.LifeCycle.{Logged}
use strevm.WorstCase.{Chain}
use strevm.SaeExec.{Receipt, Evm, Progress, consume}

-- The interim time of a block is no later than the instant.
abbrev pub InterimBy : Memory → ℕ → ProxyTime.Time → Type 0
InterimBy m p clock =
    (t : ProxyTime.Time)
    → (m.block p).interim_execution_time ≡ some t
    → (units t ≤ units clock) × (t.hertz ≡ clock.hertz)

-- A block without its interim execution time.
abbrev pub timeless : Block → Block
timeless b = record b { interim_execution_time = none }

-- Only the interim execution time of the block at `p` may differ.
pub record IsKept (p : ℕ) (m m' : Memory) : Type 0 where
  pub others : (q : ℕ) → q ≢ p → m'.block q ≡ m.block q
  pub this : timeless (m'.block p) ≡ timeless (m.block p)
  pub last_settled : m'.last_settled ≡ m.last_settled
  pub last_executed : m'.last_executed ≡ m.last_executed

pub IsKept-refl : (p : ℕ) (m : Memory) → IsKept p m m
IsKept-refl p m = record {
  others = λ q ne. refl;
  this = refl;
  last_settled = refl;
  last_executed = refl;
}

pub IsKept-trans : (p : ℕ) (a b c : Memory) → IsKept p a b → IsKept p b c → IsKept p a c
IsKept-trans p a b c k l = record {
  others = λ q ne. l.others q ne ∙ k.others q ne;
  this = l.this ∙ k.this;
  last_settled = l.last_settled ∙ k.last_settled;
  last_executed = l.last_executed ∙ k.last_executed;
}

set_interim-IsKept :
    (m : Memory) (p : ℕ) (clock : ProxyTime.Time)
    → IsKept p m (set_interim_execution_time m p clock)
unfolding set_interim_execution_time
set_interim-IsKept m p clock = record {
  others = λ q ne. elim (Bool-cases (q == p)) [
    | inl same ↦ absurd (ne ((==_iff q p).0 same))
    | inr other ↦ rw other refl
  ];
  this = rw ((==_iff p p).1 refl) refl;
  last_settled = refl;
  last_executed = refl;
}

module _ (db : StateDb) (p : ℕ) where
  -- At most `n` gas is used: the counter, the clock and the interim time move with it.
  pub record Advanced (n : ℕ) (r r' : Progress db) : Type 0 where
    pub used : ℕ
    pub within : used ≤ n
    pub counted : r'.gas ≡ r.gas + used
    pub ticked : units r'.per_tx_clock ≡ units r.per_tx_clock + used
    pub valid : ProxyTime.IsValid r'.per_tx_clock
    pub rate : r'.per_tx_clock.hertz ≡ r.per_tx_clock.hertz
    pub interim : InterimBy r.memory p r.per_tx_clock → InterimBy r'.memory p r'.per_tx_clock
    pub silent : NotBaseFee r.logged → NotBaseFee r'.logged
    pub kept : IsKept p r.memory r'.memory

  -- The gas and the time that are left suffice for `n` more.
  pub record HasRoom (n : ℕ) (r : Progress db) : Type 0 where
    pub valid : ProxyTime.IsValid r.per_tx_clock
    pub gas_room : r.gas + n < u64_mod
    pub time_room : units r.per_tx_clock + n < u64_mod * r.per_tx_clock.hertz

  pub Advanced-refl : (r : Progress db) → ProxyTime.IsValid r.per_tx_clock → Advanced 0 r r
  Advanced-refl r v = record {
    used = 0;
    within = omega arith;
    counted = omega arith;
    ticked = omega arith;
    valid = v;
    rate = refl;
    interim = λ h. h;
    silent = λ h. h;
    kept = IsKept-refl p r.memory;
  }

  pub Advanced-trans :
      (m n : ℕ) (r s t : Progress db) → Advanced m r s → Advanced n s t → Advanced (m + n) r t
  Advanced-trans m n r s t a b = record {
    used = a.used + b.used;
    within = omega (arith, a.within, b.within);
    counted = omega (arith, a.counted, b.counted);
    ticked = omega (arith, a.ticked, b.ticked);
    valid = b.valid;
    rate = b.rate ∙ a.rate;
    interim = λ h. b.interim (a.interim h);
    silent = λ h. b.silent (a.silent h);
    kept = IsKept-trans p r.memory s.memory t.memory a.kept b.kept;
  }

  pub Advanced-weaken : (m n : ℕ) (r s : Progress db) → m ≤ n → Advanced m r s → Advanced n r s
  Advanced-weaken m n r s le a = record {
    used = a.used;
    within = omega (arith, a.within);
    counted = a.counted;
    ticked = a.ticked;
    valid = a.valid;
    rate = a.rate;
    interim = a.interim;
    silent = a.silent;
    kept = a.kept;
  }

  -- A change of the accounts and receipts, with some lines of the log.
  pub Advanced-aside :
      (r : Progress db) (accounts : db.Accounts) (receipts : List Receipt) (more : List Logged)
      → ProxyTime.IsValid r.per_tx_clock
      → NotBaseFee more
      → Advanced 0 r
          (record r { accounts = accounts; receipts = receipts; logged = r.logged ++ more })
  Advanced-aside r accounts receipts more v quiet = record {
    used = 0;
    within = omega arith;
    counted = omega arith;
    ticked = omega arith;
    valid = v;
    rate = refl;
    interim = λ h. h;
    silent = λ h. NotBaseFee-append r.logged more h quiet;
    kept = IsKept-refl p r.memory;
  }

  pub HasRoom-less :
      (m n : ℕ) (r s : Progress db) → HasRoom (m + n) r → Advanced m r s → HasRoom n s
  HasRoom-less m n r s room a =
      let same : u64_mod * s.per_tx_clock.hertz ≡ u64_mod * r.per_tx_clock.hertz =
        ap (λ (h : ℕ). u64_mod * h) a.rate in
      record {
        valid = a.valid;
        gas_room = omega (arith, room.gas_room, a.counted, a.within);
        time_room = omega (arith, room.time_room, a.ticked, a.within);
      }

  -- What uses no gas comes before the rest.
  pub Advanced-after :
      (n : ℕ) (r s t : Progress db) → Advanced 0 r s → Advanced n s t → Advanced n r t
  Advanced-after n r s t a b =
      Advanced-weaken (0 + n) n r t (omega arith) (Advanced-trans 0 n r s t a b)

  pub HasRoom-after : (n : ℕ) (r s : Progress db) → HasRoom n r → Advanced 0 r s → HasRoom n s
  HasRoom-after n r s room a =
      HasRoom-less 0 n r s
        (record {
          valid = room.valid;
          gas_room = omega (arith, room.gas_room);
          time_room = omega (arith, room.time_room);
        })
        a

  set_interim-InterimBy :
      (m : Memory) (clock : ProxyTime.Time)
      → InterimBy (set_interim_execution_time m p clock) p clock
  unfolding set_interim_execution_time
  set_interim-InterimBy m clock t = rw ((==_iff p p).1 refl) (λ e.
      let same = some-injective _ _ e in
      (omega (arith, ap units same), ap (λ (u : ProxyTime.Time). u.hertz) (sym same)))

  module _ (chain : Chain db) (evm : Evm db) where
    pub consume_lem :
        (r : Progress db) (gas n : ℕ)
        → HasRoom n r
        → gas ≤ n
        → (r' : Progress db) × (consume db chain evm r p gas ≡ ok r')
          × (r'.accounts ≡ r.accounts)
          × (r'.receipts ≡ r.receipts)
          × Advanced n r r'
    unfolding consume
    consume_lem r gas n room le =
        let (clock, run, valid, moved, rate) =
          tick_lem r.per_tx_clock gas room.valid (omega (arith, room.gas_room))
            (omega (arith, room.time_room)) in
        let sum : add_u64 r.gas gas ≡ r.gas + gas = omega (arith, room.gas_room) in
        (
          record r {
            gas = r.gas + gas;
            per_tx_clock = clock;
            memory = set_interim_execution_time r.memory p clock;
          },
          rw (run, sum) refl,
          refl,
          refl,
          record {
            used = gas;
            within = le;
            counted = refl;
            ticked = moved;
            valid = valid;
            rate = rate;
            interim = λ h. set_interim-InterimBy r.memory clock;
            silent = λ h. h;
            kept = set_interim-IsKept r.memory p clock;
          },
        )
