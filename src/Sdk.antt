-- ===== src/Sdk.antt =====
-- packages/sdk/src: the settlement arithmetic that every service and the interface share.
pub mod Types
pub mod Payout
pub mod Tokenomics
pub mod Price
pub mod Exact
pub mod Estimate
pub mod Compat
pub mod Decimal
pub mod Format
pub mod Transport
