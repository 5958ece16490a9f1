-- ===== src/Indexer/Handlers.antt =====
-- `applyLog` of apps/indexer/src/handlers.ts, on the tables of one chain. Logs are decoded in full.
-- PostgreSQL itself is outside: a statement that fails rolls the whole batch back.
pub mod Replay
pub mod Rollback
pub mod Totals
pub mod Reorg
use ponshot.Indexer.Table.{delete_where}
use ponshot.Base.{true, false, leb}
use ponshot.Base.{[], ◌∷◌, Bool}
use ponshot.Indexer.Rows.{
  close_of, outcome_name, set_settled, set_locked, set_cancelled, is_decided,
}
use ponshot.Indexer.Statements.{
  mark_winners, start_round, record_event, record_execution, update_round, observe, add_burn_event,
  recompute_user, recompute_round_totals, put_bet, put_claim, add_burn,
}
use ponshot.Base.Int.{ℤ}
use ponshot.Indexer.Store.{
  DecodedLog, Body, Store, ExecutionAction, ObservationKind, BurnKind, Detail, OutcomeName,
}
use ponshot.Base.{ℕ, List, ◌∷◌, if◌then◌else◌, ltb, some, none}

abbrev pub when : Bool → (Store → Store) → Store → Store
when true change db = change db
when false change db = db

-- The statements of the `RoundSettled` case, by what its three tests say.
unfoldable pub settle_by :
    (observing accruing winning : Bool)
    → DecodedLog
    → ℕ
    → ℕ
    → ℤ
    → OutcomeName
    → ℕ
    → ℕ
    → ℕ
    → ℕ
    → ℕ
    → Store
    → Store
settle_by observing accruing winning ev epoch price tick outcome base reward fee executed_at instant
      db =
    let updated =
      update_round epoch (set_settled price tick executed_at outcome base reward fee) db in
    let observed =
      when observing
        (observe epoch ObservationKind.at_close instant price tick executed_at ev.transaction_hash)
        updated in
    let accrued =
      when accruing (add_burn_event ev BurnKind.fee_accrued (some fee) (Detail.of_epoch epoch))
        observed in
    record_execution ev ExecutionAction.settle epoch (when winning (mark_winners epoch) accrued)

-- The instant is the close time in the round's row, 0 if there is none.
unfoldable pub apply_settled : DecodedLog → ℕ → ℕ → ℤ → ℕ → ℕ → ℕ → ℕ → ℕ → Store → Store
unfolding settle_by
apply_settled ev epoch price tick code base reward fee executed_at db =
    let instant = close_of epoch db.rounds in
    let outcome = outcome_name code in
    settle_by (ltb 0 instant) (ltb 0 fee) (is_decided outcome) ev epoch price tick outcome base
      reward fee executed_at instant db

-- The `switch` on the log's name.
unfoldable pub apply_body : DecodedLog → Body → Store → Store
unfolding apply_settled
apply_body ev (Body.round_started epoch start lock close) db = start_round epoch start lock close db
apply_body ev (Body.round_locked epoch price tick instant executed_at) db =
    record_execution ev ExecutionAction.lock epoch (
      observe epoch ObservationKind.at_lock instant price tick executed_at ev.transaction_hash
        (update_round epoch (set_locked price tick executed_at) db))
apply_body ev (Body.round_settled epoch price tick code base reward fee executed_at) db =
    apply_settled ev epoch price tick code base reward fee executed_at db
apply_body ev (Body.round_cancelled epoch reason) db =
    record_execution ev ExecutionAction.cancel epoch (update_round epoch (set_cancelled reason) db)
apply_body ev (Body.bet position account epoch amount) db =
    recompute_user account
      (recompute_round_totals epoch (put_bet ev position account epoch amount db))
apply_body ev (Body.collected kind account epoch amount) db =
    recompute_user account (put_claim ev kind account epoch amount db)
apply_body ev (Body.swept name to amount) db =
    add_burn_event ev BurnKind.swept_to_burner (some amount) (Detail.of_recipient to) db
apply_body ev (Body.bought_and_burned index token eth_in burned floor) db =
    add_burn ev index token eth_in burned floor db
apply_body ev (Body.config name payload) db =
    add_burn_event ev (BurnKind.configured name) none (Detail.of_arguments payload) db
apply_body ev (Body.other name payload) db = db

unfoldable pub apply_log : DecodedLog → Store → Store
unfolding apply_body
apply_log ev db = apply_body ev ev.body (record_event ev db)

-- The loop of `indexRange` over the logs of a batch.
unfoldable pub apply_logs : List DecodedLog → Store → Store
apply_logs [] db = db
apply_logs (ev ∷ evs) db = apply_logs evs (apply_log ev db)

-- `rollbackFrom`, as one transaction.
unfoldable pub rollback_from : ℕ → Store → Store
rollback_from b db = record db {
  events = delete_where (λ r. leb b r.block_number) db.events;
  bets = delete_where (λ r. leb b r.block_number) db.bets;
  claims = delete_where (λ r. leb b r.block_number) db.claims;
  executions = delete_where (λ r. leb b r.block_number) db.executions;
  burn_events = delete_where (λ r. leb b r.block_number) db.burn_events;
}
