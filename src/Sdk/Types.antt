-- ===== src/Sdk/Types.antt =====
-- packages/sdk/src/types.ts: the contract's enumerations and structures. Amounts, prices and times
-- are uint256 on the chain, so they are natural numbers. A hash or an address is an opaque number.
use ponshot.Base.{ℕ, Bool}
use ponshot.Base.Int.{ℤ}

pub data Position : Type 0 where
  bull bear : Position

pub data RoundStatus : Type 0 where
  pending open_round locked settled cancelled : RoundStatus

pub data Outcome : Type 0 where
  undecided bull bear tie no_contest all_lost : Outcome

pub data Phase : Type 0 where
  pending open_phase awaiting_lock live awaiting_settle settled cancelled cancellable : Phase

pub record Round : Type 0 where
  pub epoch : ℕ
  pub start_timestamp : ℕ
  pub lock_timestamp : ℕ
  pub close_timestamp : ℕ
  pub lock_price : ℕ
  pub close_price : ℕ
  pub total_amount : ℕ
  pub bull_amount : ℕ
  pub bear_amount : ℕ
  pub reward_base_amount : ℕ
  pub reward_amount : ℕ
  pub status : RoundStatus

pub record RoundTerms : Type 0 where
  pub oracle : ℕ
  pub twap_window : ℕ
  pub burn_fee_bps : ℕ
  pub oracle_version : ℕ
  pub lock_tick : ℤ
  pub close_tick : ℤ
  pub locked_at : ℕ
  pub settled_at : ℕ
  pub outcome : Outcome

pub record BetInfo : Type 0 where
  pub position : Position
  pub amount : ℕ
  pub claimed : Bool

-- The labels that the code returns; `WON` and `CANCELLED` of the source's union are never used.
pub data UserRoundStatus : Type 0 where
  live pending won lost claimable claimed refunded refundable cancelled : UserRoundStatus
