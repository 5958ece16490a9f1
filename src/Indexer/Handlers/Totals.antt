-- ===== src/Indexer/Handlers/Totals.antt =====
-- The totals that a round's row carries, against its bets.
use ponshot.Indexer.Statements.{
  record_execution, record_event, observe, add_burn_event, update_round, add_burn, mark_winners,
  start_round, put_bet, put_claim, recompute_user, recompute_round_totals,
}
use ponshot.Base.Int.{ℤ}
use ponshot.Indexer.Handlers.{when, settle_by, apply_body, apply_logs, apply_settled, apply_log}
use ponshot.Indexer.Rows.{
  of_round, same_bet, side_total, merge_bet, set_totals, same_round, merge_round, new_round,
  set_settled, set_locked, outcome_name, close_of, set_cancelled, bet_row,
}
use ponshot.Indexer.Store.{Body, BetRow, Store, RoundRow, DecodedLog, OutcomeName}
use ponshot.Indexer.Table.{update_where, upsert, find_where, sum_where}
use ponshot.Base.{
  [], ◌∷◌, List, ℕ, ◌≡◌, All, Bool, none, Bool-cases, ◌≢◌, true, inl, arith, false, inr, ◌+◌, ◌==◌,
  refl, ◌∙◌, ap, sym, ==_iff,
}

pub record IsSummed (bets : List BetRow) (r : RoundRow) : Type 0 where
  pub bull_right : r.bull_amount ≡ side_total r.epoch true bets
  pub bear_right : r.bear_amount ≡ side_total r.epoch false bets
  pub total_right : r.total_amount ≡ r.bull_amount + r.bear_amount

-- A round's first log is not applied after bets on it that count.
abbrev pub InOrder : Body → Store → Type 0
InOrder (Body.round_started epoch start lock close) db =
    find_where (of_round epoch) db.rounds ≡ none
    → (side_total epoch true db.bets ≡ 0) × (side_total epoch false db.bets ≡ 0)
InOrder _ db = Unit

update-IsSummed :
    (bets : List BetRow) (epoch : ℕ) (change : RoundRow → RoundRow) (rows : List RoundRow)
    → ((r : RoundRow) → IsSummed bets r → IsSummed bets (change r))
    → All (IsSummed bets) rows
    → All (IsSummed bets) (update_where (of_round epoch) change rows)
unfolding update_where
update-IsSummed bets epoch change [] keep h = tt
update-IsSummed bets epoch change (r ∷ rs) keep h = (
  elim (Bool-cases (of_round epoch r)) [ inl hit ↦ rw hit (keep r h.0) | inr miss ↦ rw miss h.0 ],
  update-IsSummed bets epoch change rs keep h.1,
)

start-IsSummed :
    (bets : List BetRow) (epoch start lock close : ℕ) (rows : List RoundRow)
    → (find_where (of_round epoch) rows ≡ none
        → (side_total epoch true bets ≡ 0) × (side_total epoch false bets ≡ 0))
    → All (IsSummed bets) rows
    → All (IsSummed bets) (upsert same_round merge_round (new_round epoch start lock close) rows)
unfolding upsert find_where
start-IsSummed bets epoch start lock close [] empty h = ground (arith, empty refl)
start-IsSummed bets epoch start lock close (r ∷ rs) empty h = elim (Bool-cases (r.epoch == epoch)) [
  | inl hit ↦ rw hit (
    record {
      bull_right = h.0.bull_right;
      bear_right = h.0.bear_right;
      total_right = h.0.total_right;
    },
    h.1,
  )
  | inr miss ↦ rw miss (h.0, start-IsSummed bets epoch start lock close rs (rw miss at empty) h.1)
]

kept :
    {bets : List BetRow} (r r' : RoundRow)
    → IsSummed bets r
    → r'.epoch ≡ r.epoch
    → r'.bull_amount ≡ r.bull_amount
    → r'.bear_amount ≡ r.bear_amount
    → r'.total_amount ≡ r.total_amount
    → IsSummed bets r'
kept {bets} r r' h e b c t = record {
  bull_right = b ∙ h.bull_right ∙ ap (λ k. side_total k true bets) (sym e);
  bear_right = c ∙ h.bear_right ∙ ap (λ k. side_total k false bets) (sym e);
  total_right = omega (arith, h.total_right);
}

-- A bet on another round does not count.
side_total-upsert_other :
    (new : BetRow) (epoch : ℕ) (bull : Bool) (bets : List BetRow)
    → new.epoch ≢ epoch
    → side_total epoch bull (upsert same_bet merge_bet new bets) ≡ side_total epoch bull bets
unfolding upsert sum_where
side_total-upsert_other new epoch bull [] ne = ground arith
side_total-upsert_other new epoch bull (b ∷ bs) ne =
    ground (arith, side_total-upsert_other new epoch bull bs ne)

recompute-IsSummed :
    (new : BetRow) (bets : List BetRow) (rows : List RoundRow)
    → let bets' = upsert same_bet merge_bet new bets in
      All (IsSummed bets) rows
      → All (IsSummed bets') (
          update_where
            (of_round new.epoch)
            (set_totals (side_total new.epoch true bets') (side_total new.epoch false bets'))
            rows)
unfolding update_where
recompute-IsSummed new bets [] h = tt
recompute-IsSummed new bets (r ∷ rs) h = (
  elim (Bool-cases (r.epoch == new.epoch)) [
    | inl hit ↦ rw hit (recomputed r ((==_iff r.epoch new.epoch).0 hit))
    | inr miss ↦ rw miss (untouched r (λ e. ground arith) h.0)
  ],
  recompute-IsSummed new bets rs h.1,
)
  where
    bets' : List BetRow
    bets' = upsert same_bet merge_bet new bets

    recomputed :
        (r : RoundRow)
        → r.epoch ≡ new.epoch
        → IsSummed bets'
            (set_totals (side_total new.epoch true bets') (side_total new.epoch false bets') r)
    recomputed r e = record {
      bull_right = ap (λ k. side_total k true bets') (sym e);
      bear_right = ap (λ k. side_total k false bets') (sym e);
      total_right = refl;
    }

    untouched : (r : RoundRow) → new.epoch ≢ r.epoch → IsSummed bets r → IsSummed bets' r
    untouched r ne h = record {
      bull_right = h.bull_right ∙ sym (side_total-upsert_other new r.epoch true bets ne);
      bear_right = h.bear_right ∙ sym (side_total-upsert_other new r.epoch false bets ne);
      total_right = h.total_right;
    }

settled_rounds :
    (bets : List BetRow) (epoch price : ℕ) (tick : ℤ) (outcome : OutcomeName)
    (base reward fee executed_at : ℕ) (rows : List RoundRow)
    → All (IsSummed bets) rows
    → All (IsSummed bets) (
        update_where
          (of_round epoch)
          (set_settled price tick executed_at outcome base reward fee)
          rows)
settled_rounds bets epoch price tick outcome base reward fee executed_at rows h =
    update-IsSummed bets epoch (set_settled price tick executed_at outcome base reward fee) rows
      (λ r k.
        kept r (set_settled price tick executed_at outcome base reward fee r) k refl refl refl refl)
      h

-- Every round of a store is summed.
abbrev AllSummed : Store → Type 0
AllSummed db = All (IsSummed db.bets) db.rounds

when-AllSummed :
    (c : Bool) (change : Store → Store) (db : Store)
    → (AllSummed db → AllSummed (change db))
    → AllSummed db
    → AllSummed (when c change db)
when-AllSummed true change db keep h = keep h
when-AllSummed false change db keep h = h

-- The statements of `RoundSettled` and of the other cases leave the sides' columns alone.
settled-IsSummed :
    (o a w : Bool) (ev : DecodedLog) (epoch price : ℕ) (tick : ℤ) (outcome : OutcomeName)
    (base reward fee executed_at instant : ℕ) (db : Store)
    → AllSummed db
    → AllSummed (settle_by o a w ev epoch price tick outcome base reward fee executed_at instant db)
unfolding settle_by record_execution observe add_burn_event update_round mark_winners
settled-IsSummed o a w ev epoch price tick outcome base reward fee executed_at instant db h =
    when-AllSummed w (mark_winners epoch) _ (λ k. k)
      (when-AllSummed a _ _ (λ k. k)
        (when-AllSummed o _ _ (λ k. k)
          (settled_rounds db.bets epoch price tick outcome base reward fee executed_at db.rounds
            h)))

body-IsSummed :
    (ev : DecodedLog) (b : Body) (db : Store)
    → InOrder b db
    → All (IsSummed db.bets) db.rounds
    → All (IsSummed (apply_body ev b db).bets) (apply_body ev b db).rounds
unfolding apply_body apply_settled record_execution observe add_burn_event add_burn start_round
    update_round put_bet put_claim recompute_user recompute_round_totals
body-IsSummed ev (Body.round_started epoch start lock close) db o h =
    start-IsSummed db.bets epoch start lock close db.rounds o h
body-IsSummed ev (Body.round_locked epoch price tick instant executed_at) db o h =
    update-IsSummed db.bets epoch (set_locked price tick executed_at) db.rounds
      (λ r k. kept r (set_locked price tick executed_at r) k refl refl refl refl) h
body-IsSummed ev (Body.round_settled epoch price tick code base reward fee executed_at) db o h =
    settled-IsSummed _ _ _ ev epoch price tick (outcome_name code) base reward fee executed_at
      (close_of epoch db.rounds) db h
body-IsSummed ev (Body.round_cancelled epoch reason) db o h =
    update-IsSummed db.bets epoch (set_cancelled reason) db.rounds
      (λ r k. kept r (set_cancelled reason r) k refl refl refl refl) h
body-IsSummed ev (Body.bet position account epoch amount) db o h =
    recompute-IsSummed (bet_row ev position account epoch amount) db.bets db.rounds h
body-IsSummed ev (Body.collected kind account epoch amount) db o h = h
body-IsSummed ev (Body.swept name to amount) db o h = h
body-IsSummed ev (Body.bought_and_burned index token eth_in burned floor) db o h = h
body-IsSummed ev (Body.config name payload) db o h = h
body-IsSummed ev (Body.other name payload) db o h = h

-- Each log of a batch is applied in order.
abbrev pub AllInOrder : List DecodedLog → Store → Type 0
AllInOrder [] db = Unit
AllInOrder (ev ∷ evs) db = InOrder ev.body (record_event ev db) × AllInOrder evs (apply_log ev db)

-- If every round's stored totals are the sums of its bets before a batch, they are so after it, for
-- a batch in which no round's first log comes after bets on that round.
pub apply_logs-IsSummed :
    (evs : List DecodedLog) (db : Store)
    → AllInOrder evs db
    → All (IsSummed db.bets) db.rounds
    → All (IsSummed (apply_logs evs db).bets) (apply_logs evs db).rounds
unfolding apply_logs
apply_logs-IsSummed [] db o h = h
apply_logs-IsSummed (ev ∷ evs) db o h =
    apply_logs-IsSummed evs (apply_log ev db) o.1
      (unfold apply_log record_event in (body-IsSummed ev ev.body (record_event ev db) o.0 h))
