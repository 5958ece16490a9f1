-- ===== src/Sdk/Exact.antt =====
-- The figures of packages/sdk/src/payout.ts and tokenomics.ts against the contract's settlement.
use ponshot.Base.{ℕ, ◌+◌, ◌-◌, ◌*◌, ◌/◌, ◌≤◌, ◌≡◌, ◌≢◌, Bool, false, arith, ◌==◌, if◌then◌else◌}
use ponshot.Base.Int.{pos, sub_ℕ-pos}
use ponshot.Base.Division.{share-le, tenth-le}
use ponshot.Sdk.Types.{RoundStatus, Outcome, Phase, Round, BetInfo, UserRoundStatus}
use ponshot.Sdk.Payout.{is_cancellable, reward_pool, settled_payout, user_round_status}
use ponshot.Sdk.Tokenomics.{derive_outcome, split_burn_allocation}
use ponshot.Market.Settlement.{max_burn_fee_bps, try_settle, entitlement}

-- Of a round that the contract has just settled, the SDK derives the outcome that the contract
-- recorded, though it reads the round alone.
pub derive_outcome-try_settle :
    (r : Round) (bps price : ℕ)
    → derive_outcome (try_settle r bps price).round ≡ (try_settle r bps price).outcome
unfolding derive_outcome try_settle
derive_outcome-try_settle r bps price = ground arith

abbrev pub winnings : Bool × ℕ → ℕ
winnings (won, amount) = if won then amount else 0

-- For an entry with a stake that is not claimed, in a round that held no reward before the contract
-- settled it, the SDK's payout is the contract's entitlement where that counts as winnings, and 0
-- where the contract grants a refund or nothing.
pub settled_payout-entitlement :
    (r : Round) (bps price : ℕ) (bet : BetInfo)
    → r.reward_base_amount ≡ 0
    → bet.amount ≢ 0
    → bet.claimed ≡ false
    → let s = try_settle r bps price in
      settled_payout s.round bet s.outcome ≡ winnings (entitlement s.round s.outcome bet)
unfolding settled_payout try_settle entitlement
settled_payout-entitlement r bps price bet fresh some_stake unclaimed = ground arith

-- The label that fits what the contract grants: nothing, a refund, or winnings.
abbrev pub label_of : Bool × ℕ → UserRoundStatus
label_of (won, amount) =
    if amount == 0
    then UserRoundStatus.lost
    else (if won then UserRoundStatus.claimable else UserRoundStatus.refundable)

-- What the contract grants a stake that is not claimed is what its owner is told, in any phase but
-- `Cancellable`: in a round that held no reward before the contract settled it, and in one that is
-- cancelled. Nothing granted reads LOST, a refund REFUNDABLE, winnings CLAIMABLE.
pub user_round_status-entitlement :
    (r : Round) (bps price : ℕ) (bet : BetInfo) (outcome : Outcome) (phase : Phase)
    → r.reward_base_amount ≡ 0
    → bet.amount ≢ 0
    → bet.claimed ≡ false
    → is_cancellable phase ≡ false
    → let s = try_settle r bps price in
      let voided = record r { status = RoundStatus.cancelled } in
      (user_round_status s.round bet s.outcome phase ≡ label_of (entitlement s.round s.outcome bet))
      × (user_round_status voided bet outcome phase ≡ label_of (entitlement voided outcome bet))
unfolding user_round_status try_settle entitlement
user_round_status-entitlement r bps price bet outcome phase fresh some_stake unclaimed ph =
    (ground arith, ground arith)

-- Every wei of a burn allocation is assigned, for a share of at most 10,000 basis points.
pub split_burn_allocation-sum :
    (amount share : ℕ)
    → share ≤ 10000
    → let parts = split_burn_allocation amount share in
      (rest : ℕ) × (parts.project ≡ pos rest) × (parts.pons + rest ≡ amount)
unfolding split_burn_allocation
split_burn_allocation-sum amount share h = (
  amount - amount * share / 10000,
  sub_ℕ-pos _ _ (share-le amount share h),
  omega (arith, share-le amount share h),
)

-- At an even split of an odd amount the odd wei goes to the project token, not to PONS.
pub split_burn_allocation_odd :
    (k : ℕ)
    → let parts = split_burn_allocation (2 * k + 1) 5000 in
      (parts.pons ≡ k) × (parts.project ≡ pos (k + 1))
unfolding split_burn_allocation
split_burn_allocation_odd k = (omega arith, ground arith)

-- A contested round at a fee within the contract's ceiling offers its winners at least nine tenths
-- of the stakes, and never more than all of them.
pub reward_pool_bounds :
    (bull bear bps : ℕ)
    → bull ≢ 0
    → bear ≢ 0
    → bps ≤ max_burn_fee_bps
    → (pool : ℕ) × (reward_pool bull bear bps ≡ pos pool)
      × (9 * (bull + bear) ≤ 10 * pool)
      × (pool ≤ bull + bear)
unfolding reward_pool
reward_pool_bounds bull bear bps some_bull some_bear h =
    let fee = (bull + bear) * bps / 10000 in
    let le : fee * 10 ≤ bull + bear = tenth-le (bull + bear) bps h in
    (bull + bear - fee, ground arith, omega arith, omega arith)
