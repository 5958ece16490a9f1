-- ===== src/Api/Rounds.antt =====
-- The handlers of apps/api/src/index.ts that list rounds: `/prediction/rounds`,
-- `/prediction/rounds/:epoch` and `/prediction/history`, over the rows of the chain that the service
-- serves. Times are numbers that a double holds exactly, so `Number` of one is the number.
pub mod Pages
use mathlib.Core.Option
use ponshot.Api.Queries.{Numerals, JsNumber, Reply, limit_of, as_bigint}
use ponshot.Api.Sql.{where_rows, order_by, order_desc, last_row}
use ponshot.Sdk.Types.{Position}
use ponshot.Base.Int.{ℤ}
use ponshot.Base.Text.{Text, codes}
use ponshot.Base.{ℕ, Bool, true, false, Option, none, some, List, [], ◌∷◌, map, take}
use ponshot.Indexer.Store.{
  RowStatus, OutcomeName, RoundRow, BetRow, ObservationRow, ObservationKind,
}

-- A round of an answer.
pub record RoundView : Type 0 where
  pub epoch : ℕ
  pub start_timestamp : ℕ
  pub lock_timestamp : ℕ
  pub close_timestamp : ℕ
  pub lock_price : Option ℕ
  pub close_price : Option ℕ
  pub lock_tick : Option ℤ
  pub close_tick : Option ℤ
  pub locked_at : Option ℕ
  pub settled_at : Option ℕ
  pub total_amount : ℕ
  pub bull_amount : ℕ
  pub bear_amount : ℕ
  pub reward_base_amount : ℕ
  pub reward_amount : ℕ
  pub burn_fee : ℕ
  pub status : RowStatus
  pub outcome : Option OutcomeName
  pub cancel_reason : Option Text

unfoldable pub round_row : RoundRow → RoundView
round_row r = record {
  epoch = r.epoch;
  start_timestamp = r.start_timestamp;
  lock_timestamp = r.lock_timestamp;
  close_timestamp = r.close_timestamp;
  lock_price = r.lock_price;
  close_price = r.close_price;
  lock_tick = r.lock_tick;
  close_tick = r.close_tick;
  locked_at = r.locked_at;
  settled_at = r.settled_at;
  total_amount = r.total_amount;
  bull_amount = r.bull_amount;
  bear_amount = r.bear_amount;
  reward_base_amount = r.reward_base;
  reward_amount = r.reward_amount;
  burn_fee = r.burn_fee;
  status = r.status;
  outcome = r.outcome;
  cancel_reason = r.cancel_reason;
}

pub record RoundsPage : Type 0 where
  pub rounds : List RoundView
  pub next_before : Option Text

abbrev pub epoch_of : RoundRow → ℕ
epoch_of r = r.epoch

-- The condition that `before` adds: an absent or empty one adds none.
abbrev pub before_test : Numerals → Option Text → Option (RoundRow → Bool)
before_test pg none = some (λ r. true)
before_test pg (some []) = some (λ r. true)
before_test pg (some (c ∷ t)) = elim (pg.less (c ∷ t)) [
  | some test ↦ some (λ r. test r.epoch)
  | none ↦ none
]

abbrev pub rounds_page : Numerals → List RoundRow → RoundsPage
rounds_page pg rows = record {
  rounds = map round_row rows;
  next_before = elim (last_row rows) [ some r ↦ some (pg.print r.epoch) | none ↦ none ];
}

-- `/prediction/rounds`
unfoldable pub prediction_rounds :
    Numerals → (Text → JsNumber) → (limit before : Option Text) → List RoundRow → Reply RoundsPage
unfolding where_rows order_by limit_of round_row
prediction_rounds pg number limit before table = elim (as_bigint (limit_of number limit 50 200)) [
  | none ↦ Reply.refused
  | some n ↦ elim (before_test pg before) [
    | none ↦ Reply.refused
    | some test ↦
        Reply.reply (rounds_page pg (take n (order_desc epoch_of (where_rows test table))))
  ]
]

-- `status IN ('SETTLED','CANCELLED')`
abbrev pub is_over : RoundRow → Bool
is_over r = elim r.status [ RowStatus.settled ↦ true | RowStatus.cancelled ↦ true | _ ↦ false ]

-- `/prediction/history`
unfoldable pub prediction_history :
    (Text → JsNumber) → (limit : Option Text) → List RoundRow → Reply (List RoundView)
unfolding where_rows order_by limit_of round_row
prediction_history number limit table = elim (as_bigint (limit_of number limit 50 200)) [
  | none ↦ Reply.refused
  | some n ↦ Reply.reply (map round_row (take n (order_desc epoch_of (where_rows is_over table))))
]

pub record RoundBet : Type 0 where
  pub account : ℕ
  pub position : Position
  pub amount : ℕ
  pub tx_hash : ℕ
  pub block_time : Option ℕ

pub record RoundObservation : Type 0 where
  pub kind : ObservationKind
  pub instant : ℕ
  pub price : ℕ
  pub tick : ℤ
  pub executed_at : ℕ
  pub lag_seconds : ℤ

pub record RoundDetail : Type 0 where
  pub round : RoundView
  pub bets : List RoundBet
  pub oracle : List RoundObservation

abbrev pub round_bet : BetRow → RoundBet
round_bet b = record {
  account = b.account;
  position = b.position;
  amount = b.amount;
  tx_hash = b.tx_hash;
  block_time = b.block_time;
}

abbrev pub round_observation : ObservationRow → RoundObservation
round_observation o = record {
  kind = o.kind;
  instant = o.instant;
  price = o.price;
  tick = o.tick;
  executed_at = o.executed_at;
  lag_seconds = o.lag_seconds;
}

abbrev pub round_detail : (ℕ → Bool) → RoundRow → List BetRow → List ObservationRow → RoundDetail
round_detail test r bets observations = record {
  round = round_row r;
  bets = map round_bet (order_desc (λ b. b.amount) (where_rows (λ b. test b.epoch) bets));
  oracle = map round_observation (where_rows (λ o. test o.epoch) observations);
}

-- `/prediction/rounds/:epoch`
unfoldable pub prediction_round :
    Numerals
    → (epoch : Text) → List RoundRow
    → List BetRow
    → List ObservationRow
    → Reply RoundDetail
unfolding where_rows order_by round_row
prediction_round pg epoch rounds bets observations = elim (pg.equal epoch) [
  | none ↦ Reply.refused
  | some test ↦ elim (where_rows (λ r. test r.epoch) rounds) [
    | [] ↦ Reply.failed (codes "round not found")
    | r ∷ rs ↦ Reply.reply (round_detail test r bets observations)
  ]
]
