-- ===== src/Lib.antt =====
-- strevm: streaming asynchronous execution of EVM blocks, the verification library.
--
-- The program separates the consensus on a sequence of blocks from their execution. Blocks are
-- built against a worst-case prediction of the state, executed later at the pace of a clock that
-- measures time in gas, and settled once their execution is old enough.
--
-- Base        shared names, Boolean tests, lists, uint64 with math/bits, and Outcome: the result of
--             a Go call, its error value, or a panic.
-- IntMath     intmath/intmath.go.
-- ProxyTime   proxytime/proxytime.go. A method that changes its receiver returns the new value;
--             `units` is the instant that a representation stands for.
-- Params      params/params.go.
-- Hook        hook/hook.go: what the user of the library injects.
-- GasTime     gastime/gastime.go, gastime/acp176.go and gastime/config.go, over ProxyTime. GasTime.Below
--             and GasTime.Refine compare the clock of the execution with that of the worst case.
-- Hook.Ops    Op.ApplyTo of hook/hook.go, over an interface to libevm's state database.
-- Blocks      blocks/block.go, blocks/settlement.go and blocks/time.go: the blocks in memory, how one
--             settles others, and the choice of the last block to settle. A pointer is a number, nil
--             is `none`, and a memory maps pointers to blocks.
--             Blocks.Execution is blocks/execution.go, over an interface to the databases,
--             Blocks.Access is blocks/access.go, over an interface to the chain, and
--             Blocks.LifeCycle is blocks/invariants.go with MarkSynchronous and
--             RestoreSettledBlock.
-- WorstCase   worstcase/state.go: the queue, the clock, the balances and the nonces that the block
--             builder predicts, over Hook.Ops and GasTime; it yields the bounds of Blocks.
-- SaeExec     saexec/execution.go: Execute, as steps on what it has done so far, and the executor with
--             its queue, over an interface to libevm's EVM. SaeExec.Progressed and SaeExec.Loops are
--             about the gas and the time of a block, SaeExec.Refine about its prediction.
--             SaeExec.Receipts is saexec/receipts.go, the receipts that wait to be written, and
--             SaeExec.Context is saexec/context.go.
-- Sae         Sae.Builder is sae/block_builder.go: a block is built, or rebuilt for its verification,
--             on the replay of the blocks since the last settled one. Sae.Consensus is sae/consensus.go
--             with the verification of sae/blocks.go, Sae.Access the rest of sae/blocks.go, and
--             Sae.Recovery and Sae.Restart are sae/recovery.go. Sae.Rpc is the logic of
--             custom.go, readers.go, receipts.go and stateful.go in sae/rpc/, and Sae.Rpc.Backend the reading methods
--             of its backend. Sae.Signal is the wait for transactions in sae/vm.go: its state is
--             the pool, the channel and the call, and an action is one step of one of them.
-- GasPrice    gasprice/: the suggestion of tips, over its cache, and in GasPrice.History the fee history.
-- TxGossip    txgossip/priority.go: the order of the pending transactions.
-- SaeDb       saedb/saedb.go and the choice of state roots in saedb/tracker.go.
--
-- Conventions. A value of type uint64 is a natural number, and every `+`, `-` and `*` of the source
-- that can wrap is written with its wrap-around; the theorems carry the ranges as hypotheses. The
-- seconds of a time.Time are the word of an int64, and times are compared as signed numbers. Code
-- of other modules is a parameter: gas.CalculatePrice is a function with the laws of PriceLaws,
-- hook.Points is a record of functions with the laws of IsLawful, and the EVM one with those of
-- EvmLaws. That the hooks give the header of a block the gas configuration that they give it with
-- the gas limit and the base fee of the worst case is not documented in hook/hook.go: it is no law
-- but a condition on the blocks, in Sae.Builder.Predicted (`Agrees`) and in the record IsForeseen
-- of SaeExec.Refine. Logging, metrics and the texts of errors are left out; an error that wraps
-- another is that other.
--
-- Bounds and fuel. The search of findExcessForPrice has fuel for 64 rounds, which halve an interval
-- of 2^64 values. The hypotheses of the form `units + n < u64_mod * hertz` say that the seconds
-- since the epoch fit in a word, as the doc comments of the source assume.
-- The loop of LastToSettleAt has fuel for two rounds more than the height of the parent, as
-- each round goes down by one block and the lowest block is settled.
--
-- The loop `extend` of the recovery has fuel for two rounds more than the height of the last block, as
-- each round goes down by one block.
--
-- Sae.Restart untracks with as many rounds as there are heights between the two blocks, and the
-- executor has as many as its queue is long.
--
-- Not modelled: the reference counts of the tracker in saedb/; the gossip in txgossip/; the rest of
-- the JSON-RPC, the adaptor, the constructors and the shutdown, which are glue over libevm and
-- avalanchego; the generated encodings (.canoto.go); and the helpers of the tests. A float64 of
-- gasprice/ is an interface to its comparisons and roundings. The goroutine of the executor is a
-- sequence of rounds; the events that it sends are left out.
pub mod Base
pub mod IntMath
pub mod ProxyTime
pub mod Params
pub mod Hook
pub mod GasTime
pub mod Blocks
pub mod WorstCase
pub mod SaeDb
pub mod SaeExec
pub mod Sae
pub mod GasPrice
pub mod TxGossip
