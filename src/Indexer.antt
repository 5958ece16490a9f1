-- ===== src/Indexer.antt =====
-- apps/indexer/src: the read model that is derived from the contract's logs.
pub mod Table
pub mod Store
pub mod Rows
pub mod Statements
pub mod Handlers
pub mod Engine
pub mod Migrate
