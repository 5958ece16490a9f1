-- ===== src/Examples/Entry.antt =====
-- A stake of 5 in an open round.
use ponshot.Base.Int.{ℤ, pos}
use ponshot.Base.Text.{Text, codes}
use ponshot.Base.{◌≡◌, refl, true, false, Option, none, some, arith, if◌then◌else◌, [], ◌∷◌, ◌-◌}
use ponshot.Market.Entry.{Rules, Refusal, enter_refusal, phase_of}
use ponshot.Sdk.Types.{Round, BetInfo, RoundStatus, Position}
use ponshot.Web.Entry.{Modal, Entering, submit, panel_enabled}
use ponshot.Web.Entry.Submit.{submit-enter_refusal}

abbrev one_digit : Text → Option ℤ
one_digit (c ∷ []) = some (pos (c - 48))
one_digit _ = none

abbrev rules : Rules
rules = record { minimum_bet = 2; maximum_bet = 8; maximum_round_pool = 100; paused = false }

abbrev open_at_7 : Round
open_at_7 = record {
  epoch = 7;
  start_timestamp = 100;
  lock_timestamp = 400;
  close_timestamp = 700;
  lock_price = 0;
  close_price = 0;
  total_amount = 90;
  bull_amount = 40;
  bear_amount = 50;
  reward_base_amount = 0;
  reward_amount = 0;
  status = RoundStatus.open_round;
}

abbrev shown : Modal
shown = record {
  address = some 55;
  clock = 200;
  amount = codes "5";
  bull = true;
  round = open_at_7;
  minimum_bet = 2;
  maximum_bet = 8;
  maximum_round_pool = 100;
  balance = some 20;
}

abbrev earlier_bet : BetInfo
earlier_bet = record { position = Position.bear; amount = 3; claimed = false }

abbrev entering : Entering
entering = record { bull = true; epoch = 7; value = 5 }

-- A wallet with a bet in the round, for which the panel's buttons are shut and the quick stakes are
-- not.
submit-enter_refusal_example :
    (entering.epoch ≡ 7)
    × (enter_refusal rules 200 open_at_7 earlier_bet 5 ≡ (
        if panel_enabled false (phase_of false 200 open_at_7) earlier_bet
        then none
        else some Refusal.already_entered))
unfolding submit phase_of
submit-enter_refusal_example =
    submit-enter_refusal one_digit rules false 200 shown earlier_bet entering
      (record { same_minimum = refl; same_maximum = refl; same_pool = refl }) (omega arith) refl
      refl

refusal_test : enter_refusal rules 200 open_at_7 earlier_bet 5 ≡ some Refusal.already_entered
unfolding enter_refusal
refusal_test = refl
