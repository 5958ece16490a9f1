-- ===== src/Indexer/Handlers/Replay.antt =====
-- Logs that are applied again.
use ponshot.Indexer.Table.{update_where}
use ponshot.Base.{true, false, Bool}
use ponshot.Indexer.Rows.{
  set_locked, set_cancelled, set_settled, outcome_name, close_of, is_decided, of_round,
}
use ponshot.Indexer.Statements.Twice.{
  upserts_twice, update_rounds_twice, totals_twice, winners_twice, close_of-update,
}
use ponshot.Indexer.Statements.{
  record_event, record_execution, observe, add_burn_event, add_burn, start_round, update_round,
  put_bet, put_claim, recompute_user, recompute_round_totals, mark_winners,
}
use ponshot.Indexer.Handlers.{apply_settled, apply_body, settle_by, apply_log}
use ponshot.Base.Int.{ℤ}
use ponshot.Indexer.Store.{DecodedLog, Store, Body, OutcomeName}
use ponshot.Base.{refl, ◌≡◌, ℕ, ltb}

module _ (ev : DecodedLog) (epoch price : ℕ) (tick : ℤ) (outcome : OutcomeName)
    (base reward fee executed_at instant : ℕ) where
  rounds_again :
      (db : Store)
      → let change = set_settled price tick executed_at outcome base reward fee in
        update_where (of_round epoch) change (update_where (of_round epoch) change db.rounds)
        ≡ update_where (of_round epoch) change db.rounds
  rounds_again db =
      update_rounds_twice epoch (set_settled price tick executed_at outcome base reward fee)
        db.rounds (λ r. refl) (λ r. refl)

  -- The statements of the `RoundSettled` case, done twice with the same instant.
  settled_core :
      (o a w : Bool) (db : Store)
      → let settle =
          settle_by o a w ev epoch price tick outcome base reward fee executed_at instant in
        settle (record_event ev (settle (record_event ev db))) ≡ settle (record_event ev db)
  unfolding settle_by record_event record_execution observe add_burn_event update_round mark_winners
  settled_core true true true db = simp (upserts_twice, winners_twice, rounds_again db)
  settled_core true true false db = simp (upserts_twice, rounds_again db)
  settled_core true false true db = simp (upserts_twice, winners_twice, rounds_again db)
  settled_core true false false db = simp (upserts_twice, rounds_again db)
  settled_core false true true db = simp (upserts_twice, winners_twice, rounds_again db)
  settled_core false true false db = simp (upserts_twice, rounds_again db)
  settled_core false false true db = simp (upserts_twice, winners_twice, rounds_again db)
  settled_core false false false db = simp (upserts_twice, rounds_again db)

  rounds-settle_by :
      (o a w : Bool) (db : Store)
      → (settle_by o a w ev epoch price tick outcome base reward fee executed_at instant db).rounds
        ≡ update_where
            (of_round epoch)
            (set_settled price tick executed_at outcome base reward fee)
            db.rounds
  unfolding settle_by record_execution observe add_burn_event update_round mark_winners
  rounds-settle_by true true true db = refl
  rounds-settle_by true true false db = refl
  rounds-settle_by true false true db = refl
  rounds-settle_by true false false db = refl
  rounds-settle_by false true true db = refl
  rounds-settle_by false true false db = refl
  rounds-settle_by false false true db = refl
  rounds-settle_by false false false db = refl

  -- The second time the case reads the same instant.
  close_of-settle_by :
      (o a w : Bool) (db : Store)
      → close_of epoch
          (record_event ev (
            settle_by o a w ev epoch price tick outcome base reward fee executed_at instant
              (record_event ev db))).rounds
        ≡ close_of epoch (record_event ev db).rounds
  unfolding record_event
  close_of-settle_by o a w db = rw (rounds-settle_by o a w (record_event ev db)) (
      close_of-update epoch epoch (set_settled price tick executed_at outcome base reward fee)
        db.rounds (λ r. refl) (λ r. refl))

settled_twice :
    (ev : DecodedLog) (epoch price : ℕ) (tick : ℤ) (code base reward fee executed_at : ℕ)
    (db : Store)
    → let settle = apply_settled ev epoch price tick code base reward fee executed_at in
      settle (record_event ev (settle (record_event ev db))) ≡ settle (record_event ev db)
unfolding apply_settled
settled_twice ev epoch price tick code base reward fee executed_at db =
    let outcome = outcome_name code in
    let instant = close_of epoch (record_event ev db).rounds in
    rw
      (close_of-settle_by ev epoch price tick outcome base reward fee executed_at instant
        (ltb 0 instant) (ltb 0 fee) (is_decided outcome) db)
      (settled_core ev epoch price tick outcome base reward fee executed_at instant (ltb 0 instant)
        (ltb 0 fee) (is_decided outcome) db)

body_twice :
    (ev : DecodedLog) (b : Body) (db : Store)
    → apply_body ev b (record_event ev (apply_body ev b (record_event ev db)))
      ≡ apply_body ev b (record_event ev db)
unfolding apply_body record_event record_execution observe add_burn_event add_burn start_round
    update_round put_bet put_claim recompute_user recompute_round_totals
body_twice ev (Body.round_started epoch start lock close) db = simp upserts_twice
body_twice ev (Body.round_locked epoch price tick instant executed_at) db = simp (
  upserts_twice,
  update_rounds_twice epoch (set_locked price tick executed_at) db.rounds (λ r. refl) (λ r. refl),
)
body_twice ev (Body.round_settled epoch price tick code base reward fee executed_at) db =
    settled_twice ev epoch price tick code base reward fee executed_at db
body_twice ev (Body.round_cancelled epoch reason) db = simp (
  upserts_twice,
  update_rounds_twice epoch (set_cancelled reason) db.rounds (λ r. refl) (λ r. refl),
)
body_twice ev (Body.bet position account epoch amount) db = simp (upserts_twice, totals_twice)
body_twice ev (Body.collected kind account epoch amount) db = simp upserts_twice
body_twice ev (Body.swept name to amount) db = simp upserts_twice
body_twice ev (Body.bought_and_burned index token eth_in burned floor) db = simp upserts_twice
body_twice ev (Body.config name payload) db = simp upserts_twice
body_twice ev (Body.other name payload) db = simp upserts_twice

-- Applying a log a second time, right after the first, changes no table.
pub apply_log_twice :
    (ev : DecodedLog) (db : Store) → apply_log ev (apply_log ev db) ≡ apply_log ev db
unfolding apply_log
apply_log_twice ev db = body_twice ev ev.body db
