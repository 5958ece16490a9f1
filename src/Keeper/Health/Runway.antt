-- ===== src/Keeper/Health/Runway.antt =====
-- The count of transactions that the operator can still send.
use ponshot.Base.{ℕ, ◌+◌, ◌*◌, ◌≤◌, ◌<◌, arith}
use ponshot.Keeper.State.{KeeperState}
use ponshot.Keeper.Health.{runway}

-- The transactions remaining are as many reserves as the balance holds, and not one more; the
-- reserve is not zero, and no smaller than the largest cost that the state has recorded.
pub runway_lem :
    (s : KeeperState) (balance : ℕ)
    → let fuel = runway s balance in
      (0 < fuel.reserve_wei)
      × (s.max_tx_cost_wei ≤ fuel.reserve_wei)
      × (fuel.txs_remaining * fuel.reserve_wei ≤ balance)
      × (balance < (fuel.txs_remaining + 1) * fuel.reserve_wei)
unfolding runway
runway_lem s balance = grind arith
