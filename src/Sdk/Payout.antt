-- ===== src/Sdk/Payout.antt =====
-- packages/sdk/src/payout.ts. A BigInt difference that may fall below zero is an integer; the
-- quotients are BigInt's, and each stands behind the test that keeps its divisor from zero.
use ponshot.Base.{
  ℕ, ◌+◌, ◌*◌, ◌/◌, ◌^◌, Bool, true, false, ◌&&◌, ◌||◌, Option, none, some, ◌==◌, if◌then◌else◌,
}
use ponshot.Base.Int.{ℤ, pos, sub_ℕ, scale, quot, magnitude}
use ponshot.Sdk.Types.{Position, RoundStatus, Outcome, Phase, Round, BetInfo, UserRoundStatus}

abbrev pub bps_denominator : ℕ
bps_denominator = 10000

abbrev pub wad : ℕ
wad = 10 ^ 18

unfoldable pub burn_fee : ℕ → ℕ → ℕ
burn_fee total_amount fee_bps = total_amount * fee_bps / bps_denominator

unfoldable pub reward_pool : ℕ → ℕ → ℕ → ℤ
unfolding burn_fee
reward_pool bull_amount bear_amount fee_bps =
    if bull_amount == 0 || bear_amount == 0
    then pos 0
    else let total = bull_amount + bear_amount in sub_ℕ total (burn_fee total fee_bps)

unfoldable pub multiplier_x18 : ℕ → ℕ → ℕ → Option ℤ
unfolding reward_pool
multiplier_x18 side other fee_bps =
    if side == 0 || other == 0
    then none
    else some (quot (scale wad (reward_pool side other fee_bps)) side)

pub record Estimate : Type 0 where
  pub payout : ℤ
  pub multiplier : Option ℤ

unfoldable pub estimate_payout : ℕ → ℕ → ℕ → ℕ → Estimate
unfolding reward_pool
estimate_payout stake side other fee_bps =
    let new_side = side + stake in
    let pool = reward_pool new_side other fee_bps in
    if magnitude pool == 0 || new_side == 0
    then record { payout = pos stake; multiplier = none }
    else record {
      payout = quot (scale stake pool) new_side;
      multiplier = some (quot (scale wad pool) new_side);
    }

-- `(outcome === Bull && position === Bull) || (outcome === Bear && position === Bear)`
abbrev pub backs : Outcome → Position → Bool
backs Outcome.bull Position.bull = true
backs Outcome.bear Position.bear = true
backs _ _ = false

unfoldable pub settled_payout : Round → BetInfo → Outcome → ℕ
settled_payout round bet outcome =
    if round.reward_base_amount == 0
    then 0
    else if backs outcome bet.position
    then bet.amount * round.reward_amount / round.reward_base_amount
    else 0

abbrev pub is_cancelled : RoundStatus → Bool
is_cancelled RoundStatus.cancelled = true
is_cancelled _ = false

abbrev pub is_settled : RoundStatus → Bool
is_settled RoundStatus.settled = true
is_settled _ = false

abbrev pub is_cancellable : Phase → Bool
is_cancellable Phase.cancellable = true
is_cancellable _ = false

abbrev pub is_refunding : Outcome → Bool
is_refunding Outcome.tie = true
is_refunding Outcome.no_contest = true
is_refunding _ = false

unfoldable pub is_refund_shaped : Round → Outcome → Bool
is_refund_shaped round outcome =
    if is_cancelled round.status then true else is_settled round.status && is_refunding outcome

unfoldable pub user_round_status : Round → BetInfo → Outcome → Phase → UserRoundStatus
unfolding settled_payout is_refund_shaped
user_round_status round bet outcome phase =
    if bet.amount == 0
    then UserRoundStatus.pending
    else if is_cancelled round.status
    then (if bet.claimed then UserRoundStatus.refunded else UserRoundStatus.refundable)
    else if is_cancellable phase
    then UserRoundStatus.refundable
    else if is_settled round.status
    then if is_refund_shaped round outcome
      then (if bet.claimed then UserRoundStatus.refunded else UserRoundStatus.refundable)
      else if settled_payout round bet outcome == 0
      then UserRoundStatus.lost
      else (if bet.claimed then UserRoundStatus.claimed else UserRoundStatus.claimable)
    else UserRoundStatus.live
