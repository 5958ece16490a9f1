-- ===== src/Examples/Sdk.antt =====
-- Inputs in the range of packages/sdk/test/payout.test.ts.
use ponshot.Sdk.Decimal.{split_point, spelled}
use ponshot.Sdk.Format.{format_eth, format_weth_per_pons, format_change_bps}
use ponshot.Sdk.Format.Read.{format_eth-spelled}
use ponshot.Base.Text.{codes}
use ponshot.Sdk.Estimate.{grant, enter, estimate_payout-entitlement}
use ponshot.Base.Int.{pos, neg_ℕ, negsuc}
use ponshot.Sdk.Exact.{
  derive_outcome-try_settle, winnings, split_burn_allocation-sum, split_burn_allocation_odd,
  settled_payout-entitlement, label_of, reward_pool_bounds, user_round_status-entitlement,
}
use ponshot.Sdk.Types.{Position, Round, BetInfo, RoundStatus, Outcome, Phase}
use ponshot.Market.Solvency.{IsTallied, owed, try_settle_solvent}
use ponshot.Sdk.Payout.{
  settled_payout, reward_pool, multiplier_x18, estimate_payout, user_round_status,
}
use ponshot.Sdk.Tokenomics.{describe_outcome, derive_outcome, split_burn_allocation, value}
use ponshot.Sdk.Price.{change_bps}
use ponshot.Market.Settlement.{try_settle, entitlement}
use ponshot.Base.{
  refl, ℕ, List, arith, ◌≡◌, ◌*◌, ◌+◌, false, ◌∷◌, none, [], true, ◌≤◌, ◌^◌, ◌/◌, length,
}

abbrev round_of : ℕ → ℕ → Round
round_of bull bear = record {
  epoch = 1;
  start_timestamp = 0;
  lock_timestamp = 300;
  close_timestamp = 600;
  lock_price = 100;
  close_price = 0;
  total_amount = bull + bear;
  bull_amount = bull;
  bear_amount = bear;
  reward_base_amount = 0;
  reward_amount = 0;
  status = RoundStatus.locked;
}

abbrev bet_of : Position → ℕ → BetInfo
bet_of p n = record { position = p; amount = n; claimed = false }

abbrev ledger : List BetInfo
ledger = bet_of Position.bull 1000 ∷ bet_of Position.bear 7000 ∷ bet_of Position.bull 2000 ∷ []

ledger-IsTallied : IsTallied (round_of 3000 7000) ledger
ledger-IsTallied = omega arith

worked_payout :
    let s = try_settle (round_of 3000 7000) 300 101 in
    settled_payout s.round (bet_of Position.bull 1000) s.outcome ≡ 3233
unfolding settled_payout try_settle
worked_payout = refl

worked_pool : reward_pool 3000 7000 300 ≡ pos 9700
unfolding reward_pool
worked_pool = refl

no_multiplier : multiplier_x18 3000 0 300 ≡ none
unfolding multiplier_x18
no_multiplier = refl

described_tie : (describe_outcome (value Outcome.tie)).refunded ≡ true
unfolding describe_outcome
described_tie = refl

fallen : change_bps 200 150 ≡ neg_ℕ 2500
unfolding change_bps
fallen = refl

try_settle_solvent_example :
    let s = try_settle (round_of 3000 7000) 1000 101 in
    owed s.round s.outcome ledger + s.fee ≤ 10000
try_settle_solvent_example =
    try_settle_solvent (round_of 3000 7000) 1000 101 ledger (omega arith) ledger-IsTallied

derive_outcome-try_settle_example :
    derive_outcome (try_settle (round_of 0 7000) 1000 101).round
    ≡ (try_settle (round_of 0 7000) 1000 101).outcome
derive_outcome-try_settle_example = derive_outcome-try_settle (round_of 0 7000) 1000 101

settled_payout-entitlement_example :
    let s = try_settle (round_of 3000 7000) 1000 101 in
    settled_payout s.round (bet_of Position.bull 1000) s.outcome
    ≡ winnings (entitlement s.round s.outcome (bet_of Position.bull 1000))
settled_payout-entitlement_example =
    settled_payout-entitlement (round_of 3000 7000) 1000 101 (bet_of Position.bull 1000) refl
      (omega arith) refl

user_round_status-entitlement_example :
    let s = try_settle (round_of 3000 7000) 1000 101 in
    let voided = record (round_of 3000 7000) { status = RoundStatus.cancelled } in
    let bet = bet_of Position.bear 7000 in
    (user_round_status s.round bet s.outcome Phase.settled
      ≡ label_of (entitlement s.round s.outcome bet))
    × (user_round_status voided bet Outcome.undecided Phase.settled
        ≡ label_of (entitlement voided Outcome.undecided bet))
user_round_status-entitlement_example =
    user_round_status-entitlement (round_of 3000 7000) 1000 101 (bet_of Position.bear 7000)
      Outcome.undecided Phase.settled refl (omega arith) refl refl

estimate_payout-entitlement_example :
    (estimate_payout 500 7000 3000 300).payout
    ≡ pos (grant Position.bear 500 (enter Position.bear 500 (round_of 3000 7000)) 300 99)
estimate_payout-entitlement_example =
    estimate_payout-entitlement Position.bear 500 300 99 (round_of 3000 7000) (omega arith)
      (omega arith) refl (omega arith)

reward_pool_test :
    (pool : ℕ) × (reward_pool 3000 7000 1000 ≡ pos pool)
    × (9 * (3000 + 7000) ≤ 10 * pool)
    × (pool ≤ 3000 + 7000)
reward_pool_test = reward_pool_bounds 3000 7000 1000 (omega arith) (omega arith) (omega arith)

split_sum_test :
    let parts = split_burn_allocation 7 5000 in
    (rest : ℕ) × (parts.project ≡ pos rest) × (parts.pons + rest ≡ 7)
split_sum_test = split_burn_allocation-sum 7 5000 (omega arith)

split_burn_allocation_odd_test :
    let parts = split_burn_allocation (2 * 3 + 1) 5000 in
    (parts.pons ≡ 3) × (parts.project ≡ pos (3 + 1))
split_burn_allocation_odd_test = split_burn_allocation_odd 3

format_eth-spelled_example :
    let parts = split_point (format_eth (pos 1234567890000000000) 4) in
    (spelled parts.0 * 10 ^ 4 + spelled parts.1 ≡ 1234567890000000000 / 10 ^ 14)
    × (length parts.1 ≡ 4)
format_eth-spelled_example = format_eth-spelled 1234567890000000000 3 (omega arith)

format_eth_test : format_eth (negsuc 1234567889999999999) 4 ≡ codes "-1.2345"
unfolding format_eth
format_eth_test = refl

price_test : format_weth_per_pons 216000000000000 4 ≡ codes "0.0002160"
unfolding format_weth_per_pons
price_test = refl

change_test : format_change_bps (negsuc 192) 2 ≡ codes "-1.93%"
unfolding format_change_bps
change_test = refl
