-- ===== src/Api.antt =====
-- apps/api/src: the service that reads the tables.
pub mod Router
pub mod Sql
pub mod Queries
pub mod Rounds
pub mod Stats
pub mod Candles
pub mod Joins
pub mod Leaderboard
pub mod Users
pub mod Live
pub mod Burn
