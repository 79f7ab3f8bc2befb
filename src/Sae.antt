-- ===== src/Sae.antt =====
-- sae/: the virtual machine, which builds, verifies and accepts blocks.
pub mod Builder
pub mod Consensus
pub mod Access
pub mod Recovery
pub mod Rpc
pub mod Signal
pub mod Restart
