-- ===== src/Examples/Positions.antt =====
-- A wallet with bets in rounds 3, 5 and 8, all of which it won but for round 5.
use ponshot.Base.{
  Bool, ◌≡◌, refl, ℕ, true, false, some, [], ◌∷◌, List, arith, ◌==◌, if◌then◌else◌, map, All, ◌+◌,
}
use ponshot.Base.Int.{pos}
use ponshot.Sdk.Types.{
  Round, RoundTerms, BetInfo, RoundStatus, Position, Outcome, Phase, UserRoundStatus,
}
use ponshot.Market.Claims.{Holding, Claimed, get_user_epochs, claim, claimable, refundable}
use ponshot.Market.Settlement.{entitlement, try_settle}
use ponshot.Market.Claims.Paid.{owing}
use ponshot.Web.Positions.{
  Wagmi, UserPredictionRow, use_user_predictions, claim_all, collectable, collectable_total,
  use_legacy_claimable, legacy_panel, cells, PayoutCell,
}
use ponshot.Web.Positions.Reads.{answer, Serves, row_of, use_user_predictions_latest}
use ponshot.Web.Positions.Rows.{claim_all-claim}
use ponshot.Web.Positions.Labels.{IsSettled, cells-label_of}
use ponshot.Base.Every.{IsDistinct}
use ponshot.Web.Positions.Legacy.{legacy_panel-owing, panel_total, panel_epochs}

abbrev settled_round : ℕ → Round
settled_round e = record {
  epoch = e;
  start_timestamp = 100;
  lock_timestamp = 400;
  close_timestamp = 700;
  lock_price = 10;
  close_price = 12;
  total_amount = 90;
  bull_amount = 40;
  bear_amount = 50;
  reward_base_amount = 40;
  reward_amount = 80;
  status = RoundStatus.settled;
}

abbrev bull_terms : ℕ → RoundTerms
bull_terms e = record {
  oracle = 9;
  twap_window = 60;
  burn_fee_bps = 300;
  oracle_version = 1;
  lock_tick = pos 1;
  close_tick = pos 2;
  locked_at = 401;
  settled_at = 701;
  outcome = Outcome.bull;
}

abbrev wallet_bet : ℕ → BetInfo
wallet_bet e = record {
  position = if e == 5 then Position.bear else Position.bull;
  amount = if e == 3 then 10 else if e == 5 then 7 else if e == 8 then 20 else 0;
  claimed = false;
}

abbrev holding : Holding
holding = record {
  rounds = settled_round;
  terms = bull_terms;
  phase = λ e. Phase.settled;
  ledger = wallet_bet;
  user_epochs = 3 ∷ 5 ∷ 8 ∷ [];
  total_liabilities = 500;
}

abbrev wagmi : Wagmi
wagmi = record {
  user_epochs = λ m a offset limit. some (get_user_epochs holding offset limit);
  multicall = λ m cs. some (map (answer holding) cs);
}

wagmi-Serves : Serves wagmi 77 55 holding
wagmi-Serves = record {
  pages = λ offset limit. refl;
  predictions = λ epochs. refl;
  legacies = λ epochs. refl;
}

abbrev takes_all : ℕ → Bool
takes_all n = true

abbrev shown_rows : List UserPredictionRow
shown_rows = row_of holding 8 ∷ row_of holding 5 ∷ row_of holding 3 ∷ []

use_user_predictions_latest_test :
    use_user_predictions wagmi (some 77) (some 55) 2
    ≡ some (row_of holding 8 ∷ row_of holding 5 ∷ [])
use_user_predictions_latest_test = use_user_predictions_latest wagmi 77 55 holding 2 wagmi-Serves

claim_all-claim_example :
    (after : Holding) × (claim takes_all (8 ∷ 3 ∷ []) holding ≡ Claimed.paid 60 after)
    × (after.total_liabilities ≡ 440)
    × All (λ x. owing after x ≡ 0) (8 ∷ 3 ∷ [])
unfolding claim_all collectable collectable_total claimable refundable entitlement
claim_all-claim_example =
    claim_all-claim wagmi 77 55 holding 40 takes_all shown_rows (8 ∷ 3 ∷ []) wagmi-Serves
      ((omega arith, (omega arith, tt)), ((omega arith, tt), (tt, tt)))
      (use_user_predictions_latest wagmi 77 55 holding 40 wagmi-Serves) refl (omega arith) refl

-- The limit hides what round 3 owes.
legacy_panel-owing_example :
    let shown = legacy_panel (some 77) true (use_legacy_claimable wagmi (some 77) (some 55) 1) in
    IsDistinct (panel_epochs shown) × (panel_total shown + 20 ≡ 60)
unfolding entitlement
legacy_panel-owing_example =
    legacy_panel-owing wagmi 77 55 holding 1
      ((omega arith, (omega arith, tt)), ((omega arith, tt), (tt, tt))) wagmi-Serves

abbrev locked_round : Round
locked_round = record (settled_round 3) { reward_base_amount = 0; reward_amount = 0 }

-- The same wallet, over rounds as the contract settles them.
abbrev won : Holding
won = record holding {
  rounds = λ e. (try_settle locked_round 1000 12).round;
  terms = λ e. record (bull_terms e) { outcome = (try_settle locked_round 1000 12).outcome };
}

won-IsSettled : IsSettled won 3 locked_round 1000 12
won-IsSettled = record { same_round = refl; same_outcome = refl; unrewarded = refl }

cells-label_of_example :
    let row = cells (row_of won 3) in
    (row.status ≡ UserRoundStatus.claimable)
    × (row.payout ≡ PayoutCell.payout 20)
    × (row.can_claim ≡ true)
unfolding entitlement try_settle
cells-label_of_example =
    cells-label_of won 3 locked_round 1000 12 won-IsSettled (omega arith) refl refl
