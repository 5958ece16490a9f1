-- ===== src/Indexer/Statements.antt =====
-- The statements of apps/indexer/src/handlers.ts, each on the whole store.
pub mod Twice
use ponshot.Indexer.Rows.{
  same_event, same_observation, same_execution, of_round, same_user, same_round, same_bet,
  same_claim, same_burn, keep_old, merge_observation, set_totals, merge_user, merge_round,
  merge_bet, merge_claim, event_row, same_burn_event, side_total, user_row, new_round, bet_row,
  claim_row, is_decided, entered, set_won,
}
use ponshot.Indexer.Table.{upsert, update_where}
use ponshot.Base.Int.{ℤ, sub_ℕ}
use ponshot.Sdk.Types.{Position}
use ponshot.Indexer.Store.{
  DecodedLog, ObservationKind, Store, RoundRow, ExecutionAction, BurnKind, ClaimKind, Detail,
  OutcomeName,
}
use ponshot.Base.{ℕ, Option, true, false, if◌then◌else◌}

unfoldable pub record_event : DecodedLog → Store → Store
record_event ev db = record db { events = upsert same_event keep_old (event_row ev) db.events }

unfoldable pub observe : ℕ → ObservationKind → ℕ → ℕ → ℤ → ℕ → ℕ → Store → Store
observe epoch kind instant price tick executed_at tx db = record db {
  observations =
      upsert same_observation merge_observation
        (record {
          epoch = epoch;
          kind = kind;
          instant = instant;
          price = price;
          tick = tick;
          executed_at = executed_at;
          lag_seconds = sub_ℕ executed_at instant;
          tx_hash = tx;
        })
        db.observations;
}

unfoldable pub record_execution : DecodedLog → ExecutionAction → ℕ → Store → Store
record_execution ev action epoch db = record db {
  executions =
      upsert same_execution keep_old
        (record {
          tx_hash = ev.transaction_hash;
          block_number = ev.block_number;
          sender = ev.sender;
          action = action;
          epoch = epoch;
          block_time = ev.block_time;
        })
        db.executions;
}

unfoldable pub add_burn_event : DecodedLog → BurnKind → Option ℕ → Detail → Store → Store
add_burn_event ev kind amount detail db = record db {
  burn_events =
      upsert same_burn_event keep_old
        (record {
          tx_hash = ev.transaction_hash;
          log_index = ev.log_index;
          block_number = ev.block_number;
          kind = kind;
          amount = amount;
          detail = detail;
          block_time = ev.block_time;
        })
        db.burn_events;
}

unfoldable pub recompute_round_totals : ℕ → Store → Store
recompute_round_totals epoch db = record db {
  rounds =
      update_where (of_round epoch)
        (set_totals (side_total epoch true db.bets) (side_total epoch false db.bets)) db.rounds;
}

unfoldable pub recompute_user : ℕ → Store → Store
recompute_user account db = record db {
  users = upsert same_user merge_user (user_row account db.bets db.claims) db.users;
}

unfoldable pub start_round : ℕ → ℕ → ℕ → ℕ → Store → Store
start_round epoch start lock close db = record db {
  rounds = upsert same_round merge_round (new_round epoch start lock close) db.rounds;
}

unfoldable pub update_round : ℕ → (RoundRow → RoundRow) → Store → Store
update_round epoch change db = record db { rounds = update_where (of_round epoch) change db.rounds }

unfoldable pub put_bet : DecodedLog → Position → ℕ → ℕ → ℕ → Store → Store
put_bet ev position account epoch amount db = record db {
  bets = upsert same_bet merge_bet (bet_row ev position account epoch amount) db.bets;
}

unfoldable pub put_claim : DecodedLog → ClaimKind → ℕ → ℕ → ℕ → Store → Store
put_claim ev kind account epoch amount db = record db {
  claims = upsert same_claim merge_claim (claim_row ev kind account epoch amount) db.claims;
}

unfoldable pub add_burn : DecodedLog → ℕ → ℕ → ℕ → ℕ → ℕ → Store → Store
add_burn ev index token eth_in burned floor db = record db {
  burns =
      upsert same_burn keep_old
        (record {
          tx_hash = ev.transaction_hash;
          log_index = ev.log_index;
          block_number = ev.block_number;
          target_index = index;
          token = token;
          eth_in = eth_in;
          burned = burned;
          floor_amount = floor;
          block_time = ev.block_time;
        })
        db.burns;
}

-- `markWinners`, past its test of the outcome.
unfoldable pub mark_winners : ℕ → Store → Store
mark_winners epoch db = record db {
  users = update_where (entered epoch db.bets) (set_won db.claims) db.users;
}
