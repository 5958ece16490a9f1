-- ===== src/Examples/Loop.antt =====
-- One tick of a keeper that has a round to settle and one to cancel.
use ponshot.Base.{◌≡◌, true, false, none, [], ◌∷◌}
use ponshot.Keeper.State.{empty_state, mark_handled}
use ponshot.Keeper.State.Bounds.{IsBounded, mark_handled_lem}
use ponshot.Keeper.Tx.{ok}
use ponshot.Keeper.Loop.{KeeperConfig, Answers, Keeper, for_each, cancel_one, done, tick, run}
use ponshot.Keeper.Loop.Due.Asking.{Asked}
use ponshot.Keeper.Loop.Due.{due, tick-Asks}
use ponshot.Keeper.Loop.Kept.{run-IsBounded}
use ponshot.Keeper.Loop.Handled.{cancel_handled}
use ponshot.Examples.Keeper.{opts, pre, net, fresh, empty-IsBounded}

abbrev config : KeeperConfig
config = record { options = opts; poll_interval_ms = 4000; has_burner = true; min_buyback_wei = 10 }

abbrev answers : Answers
answers = record {
  acquired = true;
  renewed = true;
  head = ok (record { balance = 500; current_epoch = 9; paused = false });
  work =
      ok (record {
        lockable = [];
        settleable = 7 ∷ [];
        cancellable = 5 ∷ [];
        can_start_next = false;
      });
  still = ok ([], 7 ∷ []);
  burn_allocated = ok 40;
  target = λ n. ok (record { allocated = 20; token = n });
  calls = λ n. record { preflight = pre; passes = net };
  clock = λ n. n;
  ended_at = 60;
}

abbrev pub keeper : Keeper
keeper = record {
  holds_lock = false;
  consecutive_failures = 0;
  running = false;
  last_tick_at = none;
  last_tick_ok = false;
  last_error = none;
  operator_balance_wei = 0;
  current_epoch = 0;
  pending = none;
  sender = fresh;
  requests = [];
}

tick-Asks_example : Asked (due config answers) keeper (tick config answers keeper)
tick-Asks_example = tick-Asks config answers keeper

run-IsBounded_example : IsBounded (run config (answers ∷ answers ∷ []) keeper).sender.state
run-IsBounded_example = run-IsBounded config (answers ∷ answers ∷ []) keeper empty-IsBounded

abbrev cancelled : Keeper
cancelled = record keeper { sender = record fresh { state = mark_handled 5 1 empty_state } }

cancel_handled_test : for_each (cancel_one config answers) (5 ∷ []) cancelled ≡ done cancelled
cancel_handled_test =
    cancel_handled config answers (5 ∷ []) cancelled
      ((mark_handled_lem 5 1 empty_state empty-IsBounded).1, tt)
