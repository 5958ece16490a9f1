-- ===== src/Keeper/Health.antt =====
-- apps/keeper/src/health.ts: the judgement of `/ready`, and `runway`. Times are milliseconds.
pub mod Runway
pub mod Floor
use ponshot.Base.{
  ℕ, ◌+◌, ◌-◌, ◌/◌, Bool, true, false, not, ◌&&◌, ◌||◌, Option, none, some, ltb, ◌==◌,
  if◌then◌else◌,
}
use ponshot.Keeper.State.{KeeperState}
use ponshot.Keeper.Loop.{Keeper}

abbrev pub fallback_reserve_wei : ℕ
fallback_reserve_wei = 1000000000000000

pub record Fuel : Type 0 where
  pub average_cost_wei : ℕ
  pub reserve_wei : ℕ
  pub txs_remaining : ℕ

unfoldable pub runway : KeeperState → ℕ → Fuel
runway s balance =
    let paid = s.gas_spent_wei in
    let count = s.totals.confirmed + s.totals.failed in
    let reserve = if ltb 0 s.max_tx_cost_wei then s.max_tx_cost_wei else fallback_reserve_wei in
    record {
      average_cost_wei = if ltb 0 count && ltb 0 paid then paid / count else 0;
      reserve_wei = reserve;
      txs_remaining = balance / reserve;
    }

-- No tick yet, or none in the last two minutes.
abbrev pub is_stale : ℕ → Option ℕ → Bool
is_stale now none = true
is_stale now (some last) = last == 0 || ltb 120000 (now - last)

-- `ready`, by the keeper's status, the floor that it refuses to send below, and whether any RPC
-- endpoint is healthy.
unfoldable pub is_ready : ℕ → Keeper → ℕ → Bool → Bool
is_ready now k floor any_healthy =
    k.running
    && not (is_stale now k.last_tick_at)
    && any_healthy
    && not (ltb k.operator_balance_wei floor)
