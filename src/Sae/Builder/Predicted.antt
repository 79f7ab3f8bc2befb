-- ===== src/Sae/Builder/Predicted.antt =====
-- The prediction of sae/block_builder.go against the execution of saexec/execution.go: the clock of the
-- replayed blocks and that of the executed ones.
use strevm.WorstCase.Returned.{new_state-inverts}
use strevm.Sae.Builder.{replay, replay_block}
use strevm.Base.{
  List, bind_inverts, none, some, [], ◌∷◌, ◌∙◌, Error, Option, ap, arith, ◌*◌, u64_mod, ◌<◌, ◌+◌,
  [], IsU64, ◌≤◌, ◌≡◌, ℕ, refl, ok, none, ok-injective, sym, is_ok, is_err, is_panic, Outcome-cases,
}
use native.Mathlib.Nat.{mul-le-mul_right}
use mathlib.Core.Option.{some-injective}
use mathlib.Core.Path.{subst}
use strevm.ProxyTime.{units}
use strevm.GasTime
use strevm.GasTime.{before_block, after_block, price, new_config, Config}
use strevm.GasTime.Excess.{IsValid}
use strevm.GasTime.Price.{PriceLaws}
use strevm.GasTime.AfterBlock.{after_block_lem}
use strevm.GasTime.Target.{new_config-ne-panic}
use strevm.Hook.{Header, Points, IsLawful}
use strevm.Blocks.{Memory, ExecutionResults}
use strevm.GasTime.Block.{before_block_lowers_price}
use strevm.SaeExec.Refine.{execute-IsBounded}
use strevm.GasTime.Below.{IsBelow, IsBelow-refl}
use strevm.Hook.Ops.{StateDb, StateDbLaws}
use strevm.Blocks.{Block, WorstCaseBounds}
use strevm.WorstCase.{new_state, State, Chain, safe_max_block_size}
use strevm.WorstCase.Queue.{safe_max_block_size_lem}
use strevm.SaeExec.{max_int, execute, Attempt, Executed, Evm}
use strevm.SaeExec.Loops.{EvmLaws}
use strevm.SaeExec.Refine.{IsForeseen}
use strevm.Sae.Builder.Replay.{replay_block-inverts, IsReplayed, worst_header}

-- The numbers of the configuration of the gas price are of type uint64.
pub record HasWords (hooks : Points) : Type 0 where
  pub scaling_in : (h : Header) → IsU64 (hooks.gas_config_after h).1.target_to_excess_scaling
  pub min_price_in : (h : Header) → IsU64 (hooks.gas_config_after h).1.min_price

module _ (db : StateDb) (chain : Chain db) (evm : Evm db) (states : StateDbLaws db)
    (laws : EvmLaws db chain evm) (calculate_price : ℕ → ℕ → ℕ → ℕ)
    (price_laws : PriceLaws calculate_price) (hooks : Points) (lawful : IsLawful hooks)
    (words : HasWords hooks) where
  -- The hooks give a header the configuration that they give it with the gas limit and the base fee that the
  -- worst case writes into it.
  abbrev pub Agrees : Header → GasTime.Time → Type 0
  Agrees h clock =
      hooks.gas_config_after h
      ≡ hooks.gas_config_after (worst_header db chain evm calculate_price hooks h clock)

  -- A block of the maximum size takes ten seconds, or more where the rate is capped.
  block_fits :
      (clock : GasTime.Time) (g : ℕ)
      → IsValid clock
      → g ≤ safe_max_block_size clock
      → clock.time.seconds + 12 < u64_mod
      → units clock.time + g + clock.time.hertz < u64_mod * clock.time.hertz
  block_fits clock g v fits room =
      let h = clock.time.hertz in
      let all : (clock.time.seconds + 13) * h ≤ u64_mod * h = mul-le-mul_right h (omega arith) in
      omega (arith, (safe_max_block_size_lem clock).0, v.clock.fraction_in)

  -- The configuration was valid where `AfterBlock` returns no error, and so is the clock.
  after_block-returned :
      (clock next : GasTime.Time) (g : ℕ) (h : Header)
      → IsValid clock
      → IsU64 g
      → units clock.time + g + clock.time.hertz < u64_mod * clock.time.hertz
      → after_block calculate_price clock g hooks h ≡ ok (next, none)
      → (cfg : Config) × (new_config (hooks.gas_config_after h).1 ≡ ok cfg) × IsValid next
  after_block-returned clock next g h v hg room run =
      let (ticked, start, fin) =
        after_block_lem calculate_price price_laws clock g hooks h v hg room (words.scaling_in h)
          (words.min_price_in h) in
      elim (Outcome-cases (new_config (hooks.gas_config_after h).1)) [
        | is_panic e ↦ absurd (new_config-ne-panic (hooks.gas_config_after h).1 e)
        | is_err why e ↦
            let (tm, run', v', t, c) = fin.rejected why e in
            absurd (
              ground (
                arith,
                ap (λ (x : GasTime.Time × Option Error). x.1) (ok-injective (sym run' ∙ run)),
              ))
        | is_ok cfg e ↦
            let (tm, run', v', t, c, k) = fin.accepted cfg e in
            (
              cfg,
              e,
              subst IsValid
                  (ap (λ (x : GasTime.Time × Option Error). x.0) (ok-injective (sym run' ∙ run)))
                  v',
            )
      ]

  -- The bounds that the replay has for a block.
  abbrev bounds_of : GasTime.Time → GasTime.Time → WorstCaseBounds
  bounds_of clock next = record {
    max_base_fee = price calculate_price clock;
    latest_end_time = next;
    min_op_burner_balances = [];
  }

  replayed-IsForeseen :
      (s s' : State db chain) (b : Block) (clock : GasTime.Time) (g : ℕ)
      → IsValid clock
      → clock.time.seconds + 12 < u64_mod
      → Agrees b.header clock
      → IsReplayed db chain evm calculate_price hooks s s' b clock g
      → IsForeseen db chain evm states laws calculate_price price_laws hooks b
          (bounds_of clock s'.clock)
          clock
          g
        × IsValid s'.clock
  replayed-IsForeseen s s' b clock g v room agrees r =
      let curr = worst_header db chain evm calculate_price hooks b.header clock in
      let fits = block_fits clock g v r.fits room in
      let small : IsU64 g = omega (arith, r.fits, (safe_max_block_size_lem clock).1) in
      let (cfg, made, valid) = after_block-returned clock s'.clock g curr v small fits r.end in
      (
        record {
          curr = curr;
          cfg = cfg;
          fee = refl;
          end = r.end;
          covers = omega (arith, r.gas);
          fits = small;
          room = fits;
          agree = agrees;
          scaling_in = words.scaling_in curr;
          min_price_in = words.min_price_in curr;
          made = made;
        },
        valid,
      )

  -- The execution of a chain of blocks, from the results of the block below to those of the last.
  pub data IsRun : ExecutionResults → List Block → ExecutionResults → Type 0 where
    idle : {e : ExecutionResults} → IsRun e [] e
    next :
        {parent e last : ExecutionResults} {b : Block} {rest : List Block} (m : Memory) (p : ℕ)
        (a : Attempt db chain evm) (r : Executed db)
        → m.block p ≡ b
        → execute db chain evm calculate_price hooks m p max_int parent ≡ ok a
        → a.result ≡ ok r
        → r.finish_by ≡ e.by_gas
        → IsRun e rest last
        → IsRun parent (b ∷ rest) last

  -- The seconds of the replayed blocks are within a word, with room for a block of the maximum size, and
  -- the hooks agree on the headers of the blocks with those of the worst case.
  abbrev pub IsExpected : State db chain → List Block → Type 0
  IsExpected s [] = Unit
  IsExpected s (b ∷ rest) =
      (b.header.time + 1 < u64_mod)
      × ((clock : GasTime.Time)
          → before_block s.clock hooks b.header ≡ ok clock
          → (clock.time.seconds + 12 < u64_mod) × Agrees b.header clock)
      × ((t : State db chain)
          → replay_block db chain evm calculate_price hooks s b ≡ ok t
          → IsExpected t rest)

  block-IsBelow :
      (s s' : State db chain) (b : Block) (parent e : ExecutionResults) (m : Memory) (p : ℕ)
      (a : Attempt db chain evm) (r : Executed db)
      → IsValid parent.by_gas
      → IsValid s.clock
      → IsBelow parent.by_gas s.clock
      → b.header.time + 1 < u64_mod
      → ((clock : GasTime.Time)
          → before_block s.clock hooks b.header ≡ ok clock
          → (clock.time.seconds + 12 < u64_mod) × Agrees b.header clock)
      → replay_block db chain evm calculate_price hooks s b ≡ ok s'
      → m.block p ≡ b
      → execute db chain evm calculate_price hooks m p max_int parent ≡ ok a
      → a.result ≡ ok r
      → r.finish_by ≡ e.by_gas
      → IsValid e.by_gas × IsValid s'.clock × IsBelow e.by_gas s'.clock
  block-IsBelow s s' b parent e m p a r v v' below time room run at ran done ends =
      let (clock, g, replayed) =
        replay_block-inverts db chain evm calculate_price hooks s s' b run in
      let (to, moved, cv, forward, excess, cheaper) =
        before_block_lowers_price calculate_price price_laws s.clock hooks b.header v' lawful
          time in
      let valid = subst IsValid (ok-injective (sym moved ∙ replayed.moved)) cv in
      let (foreseen, sv) =
        replayed-IsForeseen s s' b clock g valid (room clock replayed.moved).0
          (room clock replayed.moved).1 replayed in
      let w = bounds_of clock s'.clock in
      let (a', ran', bounded) =
        execute-IsBounded db chain evm states laws calculate_price price_laws hooks m p max_int
          parent w s.clock clock g lawful v v' below
          (subst (λ (x : Block). x.header.time + 1 < u64_mod) (sym at) time)
          (subst (λ (x : Block). before_block s.clock hooks x.header ≡ ok clock) (sym at)
            replayed.moved)
          (subst
            (λ (x : Block).
              IsForeseen db chain evm states laws calculate_price price_laws hooks x w clock g)
            (sym at) foreseen) in
      let (fv, fb) =
        bounded.early r
          (ap (λ (x : Attempt db chain evm). x.result) (ok-injective (sym ran' ∙ ran)) ∙ done) in
      (subst IsValid ends fv, sv, subst (λ (x : GasTime.Time). IsBelow x s'.clock) ends fb)

  -- However many blocks are replayed, the clock of their execution stays below that of the worst case.
  replay-IsBelow :
      (bs : List Block) (s s' : State db chain) (parent last : ExecutionResults)
      → IsValid parent.by_gas
      → IsValid s.clock
      → IsBelow parent.by_gas s.clock
      → IsExpected s bs
      → replay db chain evm calculate_price hooks s bs ≡ ok s'
      → IsRun parent bs last
      → IsValid last.by_gas × IsValid s'.clock × IsBelow last.by_gas s'.clock
  unfolding replay
  replay-IsBelow [] s s' parent last v v' below expected run idle =
      let e = ap (λ (x : State db chain). x.clock) (ok-injective run) in
      (v, subst IsValid e v', subst (IsBelow parent.by_gas) e below)
  replay-IsBelow (b ∷ rest) s s' parent last v v' below (time, room, later) run
        (next {e = e} m p a r at ran done ends more) =
      let (t, first, again) =
        bind_inverts (replay_block db chain evm calculate_price hooks s b) _ s' run in
      let (ev, tv, next_below) =
        block-IsBelow s t b parent e m p a r v v' below time room first at ran done ends in
      replay-IsBelow rest t s' e last ev tv next_below (later t first) again more

  -- From the last settled block on, for blocks that the replay accepts and that are executed, with times
  -- that fit in a word, if the hooks give the header of each the gas configuration that they give it with
  -- the gas limit and the base fee of the worst case: the clock of the last of them is valid and below
  -- that of the state on which a new block is built, which is valid as well.
  pub predicted-IsBelow :
      (settled : Block) (bs : List Block) (s s' : State db chain) (e last : ExecutionResults)
      → settled.execution ≡ some e
      → IsValid e.by_gas
      → new_state db chain settled ≡ ok s
      → IsExpected s bs
      → replay db chain evm calculate_price hooks s bs ≡ ok s'
      → IsRun e bs last
      → IsValid last.by_gas × IsValid s'.clock × IsBelow last.by_gas s'.clock
  predicted-IsBelow settled bs s s' e last executed v made expected run ran =
      let (e', executed', starts) = new_state-inverts db chain settled s made in
      let same : e.by_gas ≡ s.clock =
        ap (λ (x : ExecutionResults). x.by_gas) (some-injective _ _ (sym executed ∙ executed'))
        ∙ starts in
      replay-IsBelow bs s s' e last v (subst IsValid same v)
        (subst (IsBelow e.by_gas) same (IsBelow-refl e.by_gas)) expected run ran
