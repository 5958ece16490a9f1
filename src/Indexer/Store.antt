-- ===== src/Indexer/Store.antt =====
-- The rows of apps/indexer/migrations, for one chain: every statement of the indexer's handlers
-- names the chain, so rows of other chains play no part. An address, a hash and a time are opaque
-- numbers, so lower-casing an address is the identity; a wei amount is the number that it spells.
use ponshot.Base.Int.{ℤ}
use ponshot.Sdk.Types.{Position}
use ponshot.Base.Text.{Text}
use ponshot.Base.{ℕ, Option, List}

pub data ConfigName : Type 0 where
  fee_updated oracle_updated interval_updated twap_window_updated buffer_seconds_updated :
      ConfigName
  minimum_bet_updated maximum_bet_updated maximum_round_pool_updated burner_updated : ConfigName
  treasury_updated target_configured rate_limit_updated fee_change_proposed : ConfigName
  oracle_change_proposed role_granted role_revoked paused unpaused : ConfigName

pub data ClaimKind : Type 0 where
  claim refund : ClaimKind

-- `BurnSwept`, and the name that it had in the first version of the contract.
pub data SweepName : Type 0 where
  burn_swept treasury_claim : SweepName

-- A decoded log's name and arguments, the fields in the order of the contract's events.
pub data Body : Type 0 where
  round_started : (epoch start lock close : ℕ) → Body
  round_locked : (epoch price : ℕ) (tick : ℤ) (instant executed_at : ℕ) → Body
  round_settled :
      (epoch price : ℕ) (tick : ℤ) (outcome reward_base reward_amount burn_fee executed_at : ℕ)
      → Body
  round_cancelled : (epoch : ℕ) (reason : Text) → Body
  bet : Position → (sender epoch amount : ℕ) → Body
  collected : ClaimKind → (sender epoch amount : ℕ) → Body
  swept : SweepName → (to amount : ℕ) → Body
  bought_and_burned : (index token eth_in burned floor : ℕ) → Body
  config : ConfigName → (payload : Text) → Body
  other : (name payload : Text) → Body

pub record DecodedLog : Type 0 where
  pub body : Body
  pub block_number : ℕ
  pub block_hash : ℕ
  pub transaction_hash : ℕ
  pub log_index : ℕ
  pub block_time : Option ℕ
  pub sender : Option ℕ

pub data RowStatus : Type 0 where
  open_row locked settled cancelled : RowStatus

pub data OutcomeName : Type 0 where
  undecided bull bear tie no_contest all_lost cancelled : OutcomeName

pub record RoundRow : Type 0 where
  pub epoch : ℕ
  pub start_timestamp : ℕ
  pub lock_timestamp : ℕ
  pub close_timestamp : ℕ
  pub lock_price : Option ℕ
  pub close_price : Option ℕ
  pub lock_tick : Option ℤ
  pub close_tick : Option ℤ
  pub locked_at : Option ℕ
  pub settled_at : Option ℕ
  pub total_amount : ℕ
  pub bull_amount : ℕ
  pub bear_amount : ℕ
  pub reward_base : ℕ
  pub reward_amount : ℕ
  pub burn_fee : ℕ
  pub status : RowStatus
  pub outcome : Option OutcomeName
  pub cancel_reason : Option Text

pub record BetRow : Type 0 where
  pub epoch : ℕ
  pub account : ℕ
  pub position : Position
  pub amount : ℕ
  pub block_number : ℕ
  pub tx_hash : ℕ
  pub log_index : ℕ
  pub block_time : Option ℕ

pub record ClaimRow : Type 0 where
  pub epoch : ℕ
  pub account : ℕ
  pub amount : ℕ
  pub kind : ClaimKind
  pub block_number : ℕ
  pub tx_hash : ℕ
  pub log_index : ℕ
  pub block_time : Option ℕ

pub record UserRow : Type 0 where
  pub account : ℕ
  pub rounds_entered : ℕ
  pub rounds_won : ℕ
  pub total_staked : ℕ
  pub total_claimed : ℕ
  pub total_refunded : ℕ
  pub first_seen : Option ℕ
  pub last_seen : Option ℕ

pub data ObservationKind : Type 0 where
  at_lock at_close : ObservationKind

pub record ObservationRow : Type 0 where
  pub epoch : ℕ
  pub kind : ObservationKind
  pub instant : ℕ
  pub price : ℕ
  pub tick : ℤ
  pub executed_at : ℕ
  pub lag_seconds : ℤ
  pub tx_hash : ℕ

pub data ExecutionAction : Type 0 where
  lock settle cancel : ExecutionAction

pub record ExecutionRow : Type 0 where
  pub tx_hash : ℕ
  pub block_number : ℕ
  pub sender : Option ℕ
  pub action : ExecutionAction
  pub epoch : ℕ
  pub block_time : Option ℕ

pub data BurnKind : Type 0 where
  fee_accrued swept_to_burner : BurnKind
  configured : ConfigName → BurnKind

pub data Detail : Type 0 where
  of_epoch of_recipient : ℕ → Detail
  of_arguments : Text → Detail

pub record BurnEventRow : Type 0 where
  pub tx_hash : ℕ
  pub log_index : ℕ
  pub block_number : ℕ
  pub kind : BurnKind
  pub amount : Option ℕ
  pub detail : Detail
  pub block_time : Option ℕ

pub record BurnRow : Type 0 where
  pub tx_hash : ℕ
  pub log_index : ℕ
  pub block_number : ℕ
  pub target_index : ℕ
  pub token : ℕ
  pub eth_in : ℕ
  pub burned : ℕ
  pub floor_amount : ℕ
  pub block_time : Option ℕ

-- A row of `price_samples`, which no log writes.
pub record PriceSample : Type 0 where
  pub ts : ℕ
  pub spot : ℕ
  pub twap : Option ℕ
  pub tick : ℤ

-- The columns `name`, `epoch` and `payload` are the body.
pub record EventRow : Type 0 where
  pub block_number : ℕ
  pub block_hash : ℕ
  pub tx_hash : ℕ
  pub log_index : ℕ
  pub body : Body
  pub block_time : Option ℕ

pub record Store : Type 0 where
  pub events : List EventRow
  pub rounds : List RoundRow
  pub bets : List BetRow
  pub claims : List ClaimRow
  pub users : List UserRow
  pub observations : List ObservationRow
  pub executions : List ExecutionRow
  pub burn_events : List BurnEventRow
  pub burns : List BurnRow
