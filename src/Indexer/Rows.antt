-- ===== src/Indexer/Rows.antt =====
-- What apps/indexer/src/handlers.ts writes into rows: the keys that its statements conflict on, the
-- columns that each of them sets, and the rows that it inserts.
use Prim.Native.Nat.{max}
use ponshot.Base.{zero, suc}
use ponshot.Indexer.Table.{sum_where, count_where, find_where, extreme_where}
use ponshot.Indexer.Store.{
  ClaimKind, ObservationKind, ExecutionAction, OutcomeName, EventRow, DecodedLog, RoundRow,
  ObservationRow, ExecutionRow, BurnEventRow, BurnRow, UserRow, BetRow, ClaimRow, RowStatus,
}
use ponshot.Sdk.Types.{Position}
use ponshot.Base.Int.{ℤ}
use ponshot.Base.Text.{Text}
use ponshot.Base.{
  ℕ, Bool, List, true, suc, ◌==◌, none, some, ◌+◌, any, false, ◌&&◌, if◌then◌else◌, not, min,
}

-- Equality of the kinds that stand in keys.
abbrev pub same_claim_kind : ClaimKind → ClaimKind → Bool
same_claim_kind ClaimKind.claim ClaimKind.claim = true
same_claim_kind ClaimKind.refund ClaimKind.refund = true
same_claim_kind _ _ = false

abbrev pub same_observation_kind : ObservationKind → ObservationKind → Bool
same_observation_kind ObservationKind.at_lock ObservationKind.at_lock = true
same_observation_kind ObservationKind.at_close ObservationKind.at_close = true
same_observation_kind _ _ = false

abbrev pub same_action : ExecutionAction → ExecutionAction → Bool
same_action ExecutionAction.lock ExecutionAction.lock = true
same_action ExecutionAction.settle ExecutionAction.settle = true
same_action ExecutionAction.cancel ExecutionAction.cancel = true
same_action _ _ = false

abbrev pub is_bull : Position → Bool
is_bull Position.bull = true
is_bull Position.bear = false

abbrev pub is_claim : ClaimKind → Bool
is_claim ClaimKind.claim = true
is_claim ClaimKind.refund = false

abbrev pub keep_old {ℓ} : {R : Type ℓ} → R → R → R
keep_old old new = old

-- The array `OUTCOME`, with its fallback.
abbrev pub outcome_name : ℕ → OutcomeName
outcome_name (suc zero) = OutcomeName.bull
outcome_name (suc (suc zero)) = OutcomeName.bear
outcome_name (suc (suc (suc zero))) = OutcomeName.tie
outcome_name (suc (suc (suc (suc zero)))) = OutcomeName.no_contest
outcome_name (suc (suc (suc (suc (suc zero))))) = OutcomeName.all_lost
outcome_name _ = OutcomeName.undecided

abbrev pub same_event : EventRow → EventRow → Bool
same_event a b =
    a.block_number == b.block_number && a.tx_hash == b.tx_hash && a.log_index == b.log_index

abbrev pub event_row : DecodedLog → EventRow
event_row ev = record {
  block_number = ev.block_number;
  block_hash = ev.block_hash;
  tx_hash = ev.transaction_hash;
  log_index = ev.log_index;
  body = ev.body;
  block_time = ev.block_time;
}

abbrev pub same_round : RoundRow → RoundRow → Bool
same_round a b = a.epoch == b.epoch

abbrev pub merge_round : RoundRow → RoundRow → RoundRow
merge_round old new = record old {
  start_timestamp = new.start_timestamp;
  lock_timestamp = new.lock_timestamp;
  close_timestamp = new.close_timestamp;
}

abbrev pub new_round : ℕ → ℕ → ℕ → ℕ → RoundRow
new_round epoch start lock close = record {
  epoch = epoch;
  start_timestamp = start;
  lock_timestamp = lock;
  close_timestamp = close;
  lock_price = none;
  close_price = none;
  lock_tick = none;
  close_tick = none;
  locked_at = none;
  settled_at = none;
  total_amount = 0;
  bull_amount = 0;
  bear_amount = 0;
  reward_base = 0;
  reward_amount = 0;
  burn_fee = 0;
  status = RowStatus.open_row;
  outcome = none;
  cancel_reason = none;
}

abbrev pub of_round : ℕ → RoundRow → Bool
of_round epoch r = r.epoch == epoch

abbrev pub set_locked : ℕ → ℤ → ℕ → RoundRow → RoundRow
set_locked price tick executed_at r = record r {
  lock_price = some price;
  lock_tick = some tick;
  locked_at = some executed_at;
  status = RowStatus.locked;
}

abbrev pub set_settled : ℕ → ℤ → ℕ → OutcomeName → ℕ → ℕ → ℕ → RoundRow → RoundRow
set_settled price tick executed_at outcome base reward fee r = record r {
  close_price = some price;
  close_tick = some tick;
  settled_at = some executed_at;
  status = RowStatus.settled;
  outcome = some outcome;
  reward_base = base;
  reward_amount = reward;
  burn_fee = fee;
}

abbrev pub set_cancelled : Text → RoundRow → RoundRow
set_cancelled reason r = record r {
  status = RowStatus.cancelled;
  outcome = some OutcomeName.cancelled;
  cancel_reason = some reason;
}

abbrev pub same_observation : ObservationRow → ObservationRow → Bool
same_observation a b = a.epoch == b.epoch && same_observation_kind a.kind b.kind

abbrev pub merge_observation : ObservationRow → ObservationRow → ObservationRow
merge_observation old new = record old {
  price = new.price;
  tick = new.tick;
  executed_at = new.executed_at;
  lag_seconds = new.lag_seconds;
  tx_hash = new.tx_hash;
}

abbrev pub same_execution : ExecutionRow → ExecutionRow → Bool
same_execution a b = a.tx_hash == b.tx_hash && same_action a.action b.action && a.epoch == b.epoch

abbrev pub same_burn_event : BurnEventRow → BurnEventRow → Bool
same_burn_event a b = a.tx_hash == b.tx_hash && a.log_index == b.log_index

abbrev pub same_burn : BurnRow → BurnRow → Bool
same_burn a b = a.tx_hash == b.tx_hash && a.log_index == b.log_index

-- The stakes on one side of a round, among the bets.
abbrev pub side_bet : ℕ → Bool → BetRow → Bool
side_bet epoch bull b =
    b.epoch == epoch && (if bull then is_bull b.position else not (is_bull b.position))

abbrev pub side_total : ℕ → Bool → List BetRow → ℕ
side_total epoch bull bets = sum_where (side_bet epoch bull) (λ b. b.amount) bets

abbrev pub set_totals : ℕ → ℕ → RoundRow → RoundRow
set_totals bull bear r = record r {
  bull_amount = bull;
  bear_amount = bear;
  total_amount = bull + bear;
}

abbrev pub same_user : UserRow → UserRow → Bool
same_user a b = a.account == b.account

abbrev pub by_account : ℕ → BetRow → Bool
by_account account b = b.account == account

abbrev pub claim_of : ℕ → Bool → ClaimRow → Bool
claim_of account won c =
    c.account == account && (if won then is_claim c.kind else not (is_claim c.kind))

-- The row that `recomputeUser` selects.
abbrev pub user_row : ℕ → List BetRow → List ClaimRow → UserRow
user_row account bets claims = record {
  account = account;
  rounds_entered = count_where (by_account account) bets;
  rounds_won = count_where (claim_of account true) claims;
  total_staked = sum_where (by_account account) (λ b. b.amount) bets;
  total_claimed = sum_where (claim_of account true) (λ c. c.amount) claims;
  total_refunded = sum_where (claim_of account false) (λ c. c.amount) claims;
  first_seen = extreme_where min (by_account account) (λ b. b.block_time) bets;
  last_seen = extreme_where max (by_account account) (λ b. b.block_time) bets;
}

abbrev pub merge_user : UserRow → UserRow → UserRow
merge_user old new = record new { account = old.account }

abbrev pub set_won : List ClaimRow → UserRow → UserRow
set_won claims u = record u { rounds_won = count_where (claim_of u.account true) claims }

-- A round that was decided for one side.
abbrev pub is_decided : OutcomeName → Bool
is_decided OutcomeName.bull = true
is_decided OutcomeName.bear = true
is_decided _ = false

-- The columns that the handlers read of a table.
abbrev pub has_row : (BetRow → Bool) → List BetRow → Bool
has_row test bets = any test bets

abbrev pub close_of : ℕ → List RoundRow → ℕ
close_of epoch rounds = elim (find_where (of_round epoch) rounds) [
  | none ↦ 0
  | some r ↦ r.close_timestamp
]

abbrev pub entered : ℕ → List BetRow → UserRow → Bool
entered epoch bets u = has_row (λ b. b.epoch == epoch && b.account == u.account) bets

abbrev pub same_bet : BetRow → BetRow → Bool
same_bet a b = a.epoch == b.epoch && a.account == b.account

-- A conflict leaves the old row's block time.
abbrev pub merge_bet : BetRow → BetRow → BetRow
merge_bet old new = record old {
  position = new.position;
  amount = new.amount;
  block_number = new.block_number;
  tx_hash = new.tx_hash;
  log_index = new.log_index;
}

abbrev pub bet_row : DecodedLog → Position → ℕ → ℕ → ℕ → BetRow
bet_row ev position account epoch amount = record {
  epoch = epoch;
  account = account;
  position = position;
  amount = amount;
  block_number = ev.block_number;
  tx_hash = ev.transaction_hash;
  log_index = ev.log_index;
  block_time = ev.block_time;
}

abbrev pub same_claim : ClaimRow → ClaimRow → Bool
same_claim a b = a.epoch == b.epoch && a.account == b.account && same_claim_kind a.kind b.kind

abbrev pub merge_claim : ClaimRow → ClaimRow → ClaimRow
merge_claim old new = record old {
  amount = new.amount;
  block_number = new.block_number;
  tx_hash = new.tx_hash;
}

abbrev pub claim_row : DecodedLog → ClaimKind → ℕ → ℕ → ℕ → ClaimRow
claim_row ev kind account epoch amount = record {
  epoch = epoch;
  account = account;
  amount = amount;
  kind = kind;
  block_number = ev.block_number;
  tx_hash = ev.transaction_hash;
  log_index = ev.log_index;
  block_time = ev.block_time;
}
