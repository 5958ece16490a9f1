-- ===== src/Api/Live.antt =====
-- The handlers of apps/api/src/index.ts that report the state of the chain: `/health`,
-- `/prediction/current`, `/price/pons` and `/oracle/pons`, and the feed `/prediction/trades`. What
-- the node and the contracts answer is a parameter, `none` where a call fails.
pub mod Lag
use ponshot.Api.Queries.{JsNumber, Reply, limit_of, as_bigint}
use ponshot.Api.Sql.{order_by, where_rows}
use ponshot.Base.Int.{ℤ, pos, ◌-ℤ◌, sub_ℕ, is_negative}
use ponshot.Base.Text.{Text, codes}
use ponshot.Base.{
  ℕ, Bool, true, false, ◌==◌, ◌&&◌, ◌||◌, not, Option, none, some, List, [], ◌∷◌, ◌++◌, map, take,
  ltb, leb, if◌then◌else◌,
}
use ponshot.Indexer.Store.{RoundRow, BetRow, RowStatus, OutcomeName}
use ponshot.Sdk.Types.{Position}

pub record Health : Type 0 where
  pub ok : Bool
  pub head_block : Option ℕ
  pub indexed_block : ℤ
  pub indexer_lag_blocks : Option ℤ
  pub cursor_ahead_of_head : Bool

-- `lag !== null && lag < 0`
abbrev pub is_ahead : Option ℤ → Bool
is_ahead none = false
is_ahead (some lag) = is_negative lag

-- `/health`, with the `last_block` of the market's cursor and the head of the chain.
unfoldable pub health : (last_block : Option ℤ) → (head : Option ℕ) → Health
unfolding ◌-ℤ◌
health last_block head =
    let indexed : ℤ = elim last_block [ some n ↦ n | none ↦ pos 0 ] in
    let lag : Option ℤ = elim head [ some h ↦ some (pos h -ℤ indexed) | none ↦ none ] in
    record {
      ok = elim head [ some h ↦ not (is_ahead lag) | none ↦ false ];
      head_block = head;
      indexed_block = indexed;
      indexer_lag_blocks = lag;
      cursor_ahead_of_head = is_ahead lag;
    }

-- A round of `getVisibleRounds`: its epoch and its other fields.
pub record VisibleRound : Type 0 where
  pub epoch : ℕ
  pub fields : Text

pub record MarketReads : Type 0 where
  pub visible_rounds : Option (VisibleRound × VisibleRound × VisibleRound)
  pub current_epoch : Option ℕ
  pub fee_bps : Option ℕ
  pub minimum_bet : Option ℕ
  pub maximum_bet : Option ℕ
  pub maximum_round_pool : Option ℕ
  pub paused : Option Bool
  pub interval : Option ℕ
  pub phase_of : ℕ → Option ℕ

pub record PhasedRound : Type 0 where
  pub round : VisibleRound
  pub phase : ℕ

pub record Current : Type 0 where
  pub current_epoch : ℕ
  pub interval : ℕ
  pub burn_fee_bps : ℕ
  pub minimum_bet : ℕ
  pub maximum_bet : ℕ
  pub maximum_round_pool : ℕ
  pub paused : Bool
  pub previous : PhasedRound
  pub live : PhasedRound
  pub next : PhasedRound

abbrev pub bind {ℓ κ} : {A : Type ℓ} {B : Type κ} → Option A → (A → Option B) → Option B
bind none f = none
bind (some a) f = f a

-- A round with its phase, which is 0 for epoch 0 without a call.
abbrev pub with_phase : (ℕ → Option ℕ) → VisibleRound → Option PhasedRound
with_phase phase_of r =
    if r.epoch == 0
    then some (record { round = r; phase = 0 })
    else elim (phase_of r.epoch) [ some p ↦ some (record { round = r; phase = p }) | none ↦ none ]

-- `/prediction/current`
unfoldable pub prediction_current : MarketReads → Option Current
prediction_current read = bind read.visible_rounds λ (previous, live, next).
    bind read.current_epoch λ epoch. bind read.fee_bps λ fee. bind read.minimum_bet λ low.
      bind read.maximum_bet λ high. bind read.maximum_round_pool λ pool. bind read.paused λ paused.
        bind read.interval λ interval. bind (with_phase read.phase_of previous) λ p.
          bind (with_phase read.phase_of live) λ l. bind (with_phase read.phase_of next) λ n.
            some (record {
              current_epoch = epoch;
              interval = interval;
              burn_fee_bps = fee;
              minimum_bet = low;
              maximum_bet = high;
              maximum_round_pool = pool;
              paused = paused;
              previous = p;
              live = l;
              next = n;
            })

pub record Price : Type 0 where
  pub spot : ℕ
  pub tick : ℤ
  pub twap : ℕ
  pub as_of : ℕ

-- `/price/pons`
unfoldable pub price_pons : (spot : Option (ℕ × ℤ)) → (price : Option (ℕ × ℕ)) → Option Price
price_pons spot price = bind spot λ (s, tick).
    bind price λ (twap, as_of). some (record { spot = s; tick = tick; twap = twap; as_of = as_of })

-- What `observationState` gives.
pub record ObservationState : Type 0 where
  pub index : ℕ
  pub cardinality : ℕ
  pub cardinality_next : ℕ
  pub oldest : ℕ
  pub newest : ℕ

pub record OracleAnswer : Type 0 where
  pub description : Text
  pub default_twap_window : ℕ
  pub pool_liquidity : ℕ
  pub observations : ObservationState
  pub history_span_seconds : ℤ
  pub seconds_since_last_observation : ℤ

-- `/oracle/pons`, with the time of the latest block.
unfoldable pub oracle_pons :
    Option ObservationState
    → (liquidity : Option ℕ) → (description : Option Text) → (window : Option ℕ) → (now : Option ℕ)
    → Option OracleAnswer
oracle_pons state liquidity description window now = bind state λ obs. bind liquidity λ pool.
    bind description λ text. bind window λ seconds. bind now λ at. some (record {
      description = text;
      default_twap_window = seconds;
      pool_liquidity = pool;
      observations = obs;
      history_span_seconds = sub_ℕ obs.newest obs.oldest;
      seconds_since_last_observation = sub_ℕ at obs.newest;
    })

-- `/prediction/trades`
pub record Trade : Type 0 where
  pub epoch : ℕ
  pub account : ℕ
  pub position : Position
  pub amount : ℕ
  pub tx_hash : ℕ
  pub block_time : Option ℕ
  pub lock_price : Option ℕ
  pub status : RowStatus
  pub outcome : Option OutcomeName

abbrev pub trade_of : BetRow → RoundRow → Trade
trade_of b r = record {
  epoch = b.epoch;
  account = b.account;
  position = b.position;
  amount = b.amount;
  tx_hash = b.tx_hash;
  block_time = b.block_time;
  lock_price = r.lock_price;
  status = r.status;
  outcome = r.outcome;
}

-- `ORDER BY b.block_number DESC, b.log_index DESC`
abbrev pub later_log : (BetRow × RoundRow) → (BetRow × RoundRow) → Bool
later_log (a, x) (b, y) =
    ltb b.block_number a.block_number
    || (a.block_number == b.block_number && leb b.log_index a.log_index)

unfoldable pub bets_with_rounds : List BetRow → List RoundRow → List (BetRow × RoundRow)
unfolding where_rows
bets_with_rounds [] rounds = []
bets_with_rounds (b ∷ bs) rounds =
    map (λ r. (b, r)) (where_rows (λ r. r.epoch == b.epoch) rounds) ++ bets_with_rounds bs rounds

unfoldable pub prediction_trades :
    (Text → JsNumber) → (limit : Option Text) → List BetRow → List RoundRow → Reply (List Trade)
unfolding limit_of order_by bets_with_rounds
prediction_trades number limit bets rounds = elim (as_bigint (limit_of number limit 30 100)) [
  | none ↦ Reply.refused
  | some n ↦
      Reply.reply
        (map (λ (b, r). trade_of b r) (take n (order_by later_log (bets_with_rounds bets rounds))))
]
