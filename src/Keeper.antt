-- ===== src/Keeper.antt =====
-- apps/keeper/src: the process that advances the rounds.
pub mod State
pub mod Reason
pub mod Tx
pub mod Loop
pub mod Health
pub mod Config
pub mod Lock
pub mod Rpc
