-- ===== src/Api/Stats.antt =====
-- `/prediction/stats` of apps/api/src/index.ts, over the rows of the chain that the service serves.
-- `COUNT` and `SUM` are numbers here, where the answer has their texts, and the epoch that the market
-- reports as current is a parameter. The groups of the last query stand in a fixed order.
pub mod Volume
use ponshot.Base.Int.{ℤ, pos, negsuc, pos_part, neg_part, sub_ℕ, is_negative, magnitude, neg_ℕ}
use ponshot.Base.{
  ℕ, suc, ◌+◌, ◌*◌, ◌/◌, Bool, true, false, ◌&&◌, ◌==◌, Option, none, some, List, [], ◌∷◌,
  if◌then◌else◌, any, length, not, ◌++◌,
}
use ponshot.Indexer.Rows.{is_bull, is_claim, of_round, same_observation_kind}
use ponshot.Indexer.Store.{
  Store, RoundRow, BetRow, ClaimRow, OutcomeName, RowStatus, ObservationRow, ObservationKind,
}
use ponshot.Indexer.Table.{count_where, sum_where, find_where}

abbrev pub outcome_code : OutcomeName → ℕ
outcome_code OutcomeName.undecided = 0
outcome_code OutcomeName.bull = 1
outcome_code OutcomeName.bear = 2
outcome_code OutcomeName.tie = 3
outcome_code OutcomeName.no_contest = 4
outcome_code OutcomeName.all_lost = 5
outcome_code OutcomeName.cancelled = 6

-- `outcome = '…'`, which no null column passes.
abbrev pub has_outcome : OutcomeName → RoundRow → Bool
has_outcome name r = elim r.outcome [ some o ↦ outcome_code o == outcome_code name | none ↦ false ]

abbrev pub is_settled : RoundRow → Bool
is_settled r = elim r.status [ RowStatus.settled ↦ true | _ ↦ false ]

abbrev pub is_cancelled : RoundRow → Bool
is_cancelled r = elim r.status [ RowStatus.cancelled ↦ true | _ ↦ false ]

abbrev pub every {ℓ} : {R : Type ℓ} → R → Bool
every r = true

-- `COUNT(DISTINCT account)`
unfoldable pub count_accounts : List BetRow → ℕ
count_accounts [] = 0
count_accounts (b ∷ bs) =
    (if any (λ x. x.account == b.account) bs then 0 else 1) + count_accounts bs

pub record Stats : Type 0 where
  pub total_rounds : ℕ
  pub settled_rounds : ℕ
  pub cancelled_rounds : ℕ
  pub total_predictions : ℕ
  pub unique_wallets : ℕ
  pub total_volume : ℕ
  pub bull_volume : ℕ
  pub bear_volume : ℕ
  pub total_paid_to_winners : ℕ
  pub total_refunded : ℕ
  pub burn_fees_accrued : ℕ
  pub bull_wins : ℕ
  pub bear_wins : ℕ
  pub ties : ℕ
  pub no_contests : ℕ
  pub all_lost_rounds : ℕ
  pub all_lost_burned : ℕ

unfoldable pub stats_row : Store → Stats
unfolding count_where sum_where count_accounts
stats_row db = record {
  total_rounds = length db.rounds;
  settled_rounds = count_where is_settled db.rounds;
  cancelled_rounds = count_where is_cancelled db.rounds;
  total_predictions = length db.bets;
  unique_wallets = count_accounts db.bets;
  total_volume = sum_where every (λ b. b.amount) db.bets;
  bull_volume = sum_where (λ b. is_bull b.position) (λ b. b.amount) db.bets;
  bear_volume = sum_where (λ b. not (is_bull b.position)) (λ b. b.amount) db.bets;
  total_paid_to_winners = sum_where (λ c. is_claim c.kind) (λ c. c.amount) db.claims;
  total_refunded = sum_where (λ c. not (is_claim c.kind)) (λ c. c.amount) db.claims;
  burn_fees_accrued = sum_where every (λ r. r.burn_fee) db.rounds;
  bull_wins = count_where (has_outcome OutcomeName.bull) db.rounds;
  bear_wins = count_where (has_outcome OutcomeName.bear) db.rounds;
  ties = count_where (has_outcome OutcomeName.tie) db.rounds;
  no_contests = count_where (has_outcome OutcomeName.no_contest) db.rounds;
  all_lost_rounds = count_where (has_outcome OutcomeName.all_lost) db.rounds;
  all_lost_burned = sum_where (has_outcome OutcomeName.all_lost) (λ r. r.burn_fee) db.rounds;
}

pub record LagRow : Type 0 where
  pub kind : ObservationKind
  pub samples : ℕ
  pub avg_lag_seconds : ℤ
  pub max_lag_seconds : ℤ

abbrev add_ℤ : ℤ → ℤ → ℤ
add_ℤ a b = sub_ℕ (pos_part a + pos_part b) (neg_part a + neg_part b)

unfoldable pub sum_lag : List ObservationRow → ℤ
sum_lag [] = pos 0
sum_lag (o ∷ os) = add_ℤ o.lag_seconds (sum_lag os)

abbrev greater : ℤ → ℤ → ℤ
greater a b =
    if is_negative (sub_ℕ (pos_part a + neg_part b) (neg_part a + pos_part b)) then b else a

unfoldable pub max_lag : ℤ → List ObservationRow → ℤ
max_lag best [] = best
max_lag best (o ∷ os) = max_lag (greater best o.lag_seconds) os

-- `ROUND` of the average, halves away from zero.
abbrev pub rounded_average : ℤ → ℕ → ℤ
rounded_average total n =
    let size = (2 * magnitude total + n) / (2 * n) in
    if is_negative total then neg_ℕ size else pos size

unfoldable pub of_kind : ObservationKind → List ObservationRow → List ObservationRow
of_kind kind [] = []
of_kind kind (o ∷ os) =
    let rest = of_kind kind os in if same_observation_kind o.kind kind then o ∷ rest else rest

-- A group of `GROUP BY kind`, which is there only if it has rows.
unfoldable pub lag_row : ObservationKind → List ObservationRow → List LagRow
unfolding of_kind sum_lag max_lag
lag_row kind table = elim (of_kind kind table) [
  | [] ↦ []
  | o ∷ os ↦
      record {
        kind = kind;
        samples = suc (length os);
        avg_lag_seconds = rounded_average (sum_lag (o ∷ os)) (suc (length os));
        max_lag_seconds = max_lag o.lag_seconds os;
      }
      ∷ []
]

pub record StatsAnswer : Type 0 where
  pub row : Stats
  pub current_round_volume : ℕ
  pub oracle_settlement_lag : List LagRow

unfoldable pub prediction_stats : (current_epoch : ℕ) → Store → StatsAnswer
unfolding stats_row lag_row find_where
prediction_stats current_epoch db = record {
  row = stats_row db;
  current_round_volume = elim (find_where (of_round current_epoch) db.rounds) [
    | some r ↦ r.total_amount
    | none ↦ 0
  ];
  oracle_settlement_lag =
      lag_row ObservationKind.at_lock db.observations
      ++ lag_row ObservationKind.at_close db.observations;
}
