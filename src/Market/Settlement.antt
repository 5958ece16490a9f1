-- ===== src/Market/Settlement.antt =====
-- The contract's `_trySettle`, once its oracle has answered with a price, and `_entitlement`.
-- Solidity 0.8 reverts on overflow; the amounts here are far below 2^256 (all ETH is below 2^87).
use ponshot.Base.{ℕ, ◌-◌, ◌*◌, ◌/◌, Bool, true, false, ◌||◌, ◌==◌, ltb, if◌then◌else◌}
use ponshot.Sdk.Types.{RoundStatus, Outcome, Round, BetInfo}
use ponshot.Sdk.Payout.{backs, is_cancelled, is_settled, is_refunding}

abbrev pub max_bps : ℕ
max_bps = 10000

-- `MAX_BURN_FEE_BPS`, the contract's ceiling on the fee.
abbrev pub max_burn_fee_bps : ℕ
max_burn_fee_bps = 1000

-- What one settlement writes: the round, the outcome in its terms, and the fee that is booked.
pub record Settlement : Type 0 where
  pub round : Round
  pub outcome : Outcome
  pub fee : ℕ

abbrev close_round : Round → ℕ → Round
close_round r price = record r { close_price = price; status = RoundStatus.settled }

unfoldable pub try_settle : Round → ℕ → ℕ → Settlement
try_settle r burn_fee_bps price =
    let closed = close_round r price in
    let bull_wins = ltb r.lock_price price in
    let winning_pool = if bull_wins then r.bull_amount else r.bear_amount in
    let losing_pool = if bull_wins then r.bear_amount else r.bull_amount in
    let fee = r.total_amount * burn_fee_bps / max_bps in
    if r.total_amount == 0
    then record { round = closed; outcome = Outcome.no_contest; fee = 0 }
    else if price == r.lock_price
    then record { round = closed; outcome = Outcome.tie; fee = 0 }
    else if winning_pool == 0
    then record { round = closed; outcome = Outcome.all_lost; fee = r.total_amount }
    else if losing_pool == 0
    then record { round = closed; outcome = Outcome.no_contest; fee = 0 }
    else record {
      round = record closed {
        reward_base_amount = winning_pool;
        reward_amount = r.total_amount - fee;
      };
      outcome = if bull_wins then Outcome.bull else Outcome.bear;
      fee = fee;
    }

-- Whether the amount is winnings, and the amount.
unfoldable pub entitlement : Round → Outcome → BetInfo → Bool × ℕ
entitlement r outcome bet =
    if bet.amount == 0 || bet.claimed
    then (false, 0)
    else if is_cancelled r.status
    then (false, bet.amount)
    else if is_settled r.status
    then if is_refunding outcome
      then (false, bet.amount)
      else if backs outcome bet.position
      then (true, bet.amount * r.reward_amount / r.reward_base_amount)
      else (false, 0)
    else (false, 0)
