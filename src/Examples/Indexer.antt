-- ===== src/Examples/Indexer.antt =====
-- A batch of logs of one round.
use ponshot.Indexer.Statements.{record_event, start_round}
use ponshot.Indexer.Handlers.Replay.{apply_log_twice}
use ponshot.Base.Int.{pos}
use ponshot.Indexer.Handlers.Totals.{apply_logs-IsSummed, AllInOrder, IsSummed}
use ponshot.Indexer.Handlers.Rollback.{side_amount, below, rollback_from_lem, rollback_from_stale}
use ponshot.Sdk.Types.{Position}
use ponshot.Indexer.Rows.{bet_row, set_totals, new_round, of_round, side_total}
use ponshot.Indexer.Store.{Store, Body, BetRow, RoundRow, DecodedLog, ClaimKind}
use ponshot.Indexer.Table.{find_where, sum_where, upsert}
use ponshot.Indexer.Handlers.{rollback_from, apply_logs, apply_log}
use ponshot.Base.{refl, ℕ, List, All, [], ◌∷◌, ◌≡◌, some, none, true, ◌<◌, arith}

abbrev pub log_of : ℕ → Body → DecodedLog
log_of n body = record {
  body = body;
  block_number = n;
  block_hash = n;
  transaction_hash = n;
  log_index = 0;
  block_time = some n;
  sender = none;
}

abbrev empty_store : Store
empty_store = record {
  events = [];
  rounds = [];
  bets = [];
  claims = [];
  users = [];
  observations = [];
  executions = [];
  burn_events = [];
  burns = [];
}

abbrev pub batch : List DecodedLog
batch =
    log_of 1 (Body.round_started 7 0 300 600)
    ∷ log_of 2 (Body.bet Position.bull 55 7 40)
    ∷ log_of 3 (Body.bet Position.bear 56 7 60)
    ∷ log_of 4 (Body.round_locked 7 100 (pos 3) 300 310)
    ∷ log_of 5 (Body.round_settled 7 101 (pos 4) 1 40 90 10 605)
    ∷ log_of 6 (Body.collected ClaimKind.claim 55 7 90)
    ∷ []

abbrev pub indexed : Store
indexed = apply_logs batch empty_store

batch-AllInOrder : AllInOrder batch empty_store
unfolding find_where sum_where apply_log record_event start_round upsert
batch-AllInOrder = (λ e. (refl, refl), (tt, (tt, (tt, (tt, (tt, tt))))))

apply_logs-IsSummed_example : All (IsSummed indexed.bets) indexed.rounds
apply_logs-IsSummed_example = apply_logs-IsSummed batch empty_store batch-AllInOrder tt

apply_log_twice_example :
    let ev = log_of 2 (Body.bet Position.bull 55 7 40) in
    apply_log ev (apply_log ev empty_store) ≡ apply_log ev empty_store
apply_log_twice_example = apply_log_twice (log_of 2 (Body.bet Position.bull 55 7 40)) empty_store

abbrev stored_bet : BetRow
stored_bet = bet_row (log_of 2 (Body.bet Position.bull 55 7 40)) Position.bull 55 7 40

abbrev stored_round : RoundRow
stored_round = set_totals 40 0 (new_round 7 0 300 600)

abbrev small : Store
small = record empty_store { rounds = stored_round ∷ []; bets = stored_bet ∷ [] }

rollback_from_lem_test :
    let after = rollback_from 2 small in
    (after.events ≡ below (λ r. r.block_number) 2 small.events)
    × (after.bets ≡ below (λ r. r.block_number) 2 small.bets)
    × (after.claims ≡ below (λ r. r.block_number) 2 small.claims)
    × (after.executions ≡ below (λ r. r.block_number) 2 small.executions)
    × (after.burn_events ≡ below (λ r. r.block_number) 2 small.burn_events)
    × (after.rounds ≡ small.rounds)
    × (after.users ≡ small.users)
    × (after.observations ≡ small.observations)
    × (after.burns ≡ small.burns)
rollback_from_lem_test = rollback_from_lem 2 small

rollback_from_stale_example :
    let after = rollback_from 2 small in
    (r' : RoundRow) × (find_where (of_round 7) after.rounds ≡ some r')
    × (side_total 7 true after.bets < side_amount true r')
unfolding find_where sum_where
rollback_from_stale_example = rollback_from_stale 2 true small stored_round refl refl (omega arith)
