-- ===== src/Examples.antt =====
-- The theorems at concrete inputs, and tests of the definitions.
mod Sdk
mod Keeper
mod Indexer
pub mod Loop
pub mod Engine
pub mod Service
pub mod Router
pub mod Compat
pub mod Config
pub mod Queries
pub mod Lock
pub mod Entry
pub mod Migrate
pub mod Positions
pub mod Reorg
pub mod Rpc
pub mod Samples
