-- ===== src/Indexer/Statements/Twice.antt =====
-- Each upsert and each update of the handlers, done twice.
use ponshot.Indexer.Rows.{
  entered, same_event, same_round, same_observation, same_execution, same_burn_event, same_burn,
  same_bet, same_claim, same_user, of_round, set_won, close_of, keep_old, merge_round,
  merge_observation, merge_bet, merge_claim, merge_user, set_totals,
}
use ponshot.Indexer.Store.{
  EventRow, RoundRow, ObservationRow, ExecutionRow, BurnEventRow, BurnRow, BetRow, ClaimRow,
  UserRow,
}
use ponshot.Indexer.Table.{update_where, upsert, find_where, update_where_twice, upsert_twice}
use ponshot.Base.{[], ℕ, List, ◌≡◌, ◌∷◌, refl, arith}

module _ (new : EventRow) (rows : List EventRow) where
  pub events_twice :
      upsert same_event keep_old new (upsert same_event keep_old new rows)
      ≡ upsert same_event keep_old new rows
  events_twice =
      upsert_twice same_event keep_old new rows (ground arith) refl (λ r h. h) (λ r. refl)

module _ (new : RoundRow) (rows : List RoundRow) where
  pub rounds_twice :
      upsert same_round merge_round new (upsert same_round merge_round new rows)
      ≡ upsert same_round merge_round new rows
  rounds_twice =
      upsert_twice same_round merge_round new rows (ground arith) refl (λ r h. h) (λ r. refl)

module _ (new : ObservationRow) (rows : List ObservationRow) where
  pub observations_twice :
      upsert same_observation merge_observation new
        (upsert same_observation merge_observation new rows)
      ≡ upsert same_observation merge_observation new rows
  observations_twice =
      upsert_twice same_observation merge_observation new rows (ground arith) refl (λ r h. h)
        (λ r. refl)

module _ (new : ExecutionRow) (rows : List ExecutionRow) where
  pub executions_twice :
      upsert same_execution keep_old new (upsert same_execution keep_old new rows)
      ≡ upsert same_execution keep_old new rows
  executions_twice =
      upsert_twice same_execution keep_old new rows (ground arith) refl (λ r h. h) (λ r. refl)

module _ (new : BurnEventRow) (rows : List BurnEventRow) where
  pub burn_events_twice :
      upsert same_burn_event keep_old new (upsert same_burn_event keep_old new rows)
      ≡ upsert same_burn_event keep_old new rows
  burn_events_twice =
      upsert_twice same_burn_event keep_old new rows (ground arith) refl (λ r h. h) (λ r. refl)

module _ (new : BurnRow) (rows : List BurnRow) where
  pub burns_twice :
      upsert same_burn keep_old new (upsert same_burn keep_old new rows)
      ≡ upsert same_burn keep_old new rows
  burns_twice = upsert_twice same_burn keep_old new rows (ground arith) refl (λ r h. h) (λ r. refl)

module _ (new : BetRow) (rows : List BetRow) where
  pub bets_twice :
      upsert same_bet merge_bet new (upsert same_bet merge_bet new rows)
      ≡ upsert same_bet merge_bet new rows
  bets_twice = upsert_twice same_bet merge_bet new rows (ground arith) refl (λ r h. h) (λ r. refl)

module _ (new : ClaimRow) (rows : List ClaimRow) where
  pub claims_twice :
      upsert same_claim merge_claim new (upsert same_claim merge_claim new rows)
      ≡ upsert same_claim merge_claim new rows
  claims_twice =
      upsert_twice same_claim merge_claim new rows (ground arith) refl (λ r h. h) (λ r. refl)

module _ (new : UserRow) (rows : List UserRow) where
  pub users_twice :
      upsert same_user merge_user new (upsert same_user merge_user new rows)
      ≡ upsert same_user merge_user new rows
  users_twice =
      upsert_twice same_user merge_user new rows (ground arith) refl (λ r h. h) (λ r. refl)

pub ruleset upserts_twice = (
  events_twice, rounds_twice, observations_twice, executions_twice, burn_events_twice, burns_twice,
  bets_twice, claims_twice, users_twice,
)

-- An update of one round's columns that sets them to fixed values.
pub update_rounds_twice :
    (epoch : ℕ) (change : RoundRow → RoundRow) (rows : List RoundRow)
    → ((r : RoundRow) → (change r).epoch ≡ r.epoch)
    → ((r : RoundRow) → change (change r) ≡ change r)
    → update_where (of_round epoch) change (update_where (of_round epoch) change rows)
      ≡ update_where (of_round epoch) change rows
update_rounds_twice epoch change rows keep idem =
    update_where_twice (of_round epoch) change rows (λ r. rw (keep r)) idem

pub winners_twice :
    (epoch : ℕ) (bets : List BetRow) (claims : List ClaimRow) (rows : List UserRow)
    → update_where
        (entered epoch bets)
        (set_won claims)
        (update_where (entered epoch bets) (set_won claims) rows)
      ≡ update_where (entered epoch bets) (set_won claims) rows
winners_twice epoch bets claims rows =
    update_where_twice (entered epoch bets) (set_won claims) rows (λ r. refl) (λ r. refl)

-- An update that leaves keys and close times alone is not seen in the close time that is read.
pub close_of-update :
    (epoch e : ℕ) (change : RoundRow → RoundRow) (rows : List RoundRow)
    → ((r : RoundRow) → (change r).epoch ≡ r.epoch)
    → ((r : RoundRow) → (change r).close_timestamp ≡ r.close_timestamp)
    → close_of epoch (update_where (of_round e) change rows) ≡ close_of epoch rows
unfolding update_where find_where
close_of-update epoch e change [] keep same = refl
close_of-update epoch e change (r ∷ rs) keep same =
    ground (arith, keep r, same r, close_of-update epoch e change rs keep same)

pub totals_twice :
    (epoch bull bear : ℕ) (rows : List RoundRow)
    → update_where
        (of_round epoch)
        (set_totals bull bear)
        (update_where (of_round epoch) (set_totals bull bear) rows)
      ≡ update_where (of_round epoch) (set_totals bull bear) rows
totals_twice epoch bull bear rows =
    update_rounds_twice epoch (set_totals bull bear) rows (λ r. refl) (λ r. refl)
