-- ===== src/Market.antt =====
-- packages/contracts/src/PonsPrediction.sol: the settlement rules, as the reference that the SDK's
-- arithmetic mirrors.
pub mod Settlement
pub mod Solvency
pub mod Entry
pub mod Claims
