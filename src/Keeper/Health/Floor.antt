-- ===== src/Keeper/Health/Floor.antt =====
-- Readiness against the floor of `TxSender.send`.
use ponshot.Base.{ℕ, ◌≡◌, Bool, true, arith}
use ponshot.Keeper.Tx.{
  TxSenderOptions, SendArgs, Preflight, PassReplies, Sender, ok, check_balance, simulate, send,
}
use ponshot.Keeper.Loop.{Keeper}
use ponshot.Keeper.Health.{is_ready}

-- A keeper that is reported ready is one that `send` does not refuse for its balance: at the
-- balance reported, the call goes on to its simulation.
pub is_ready-send :
    (now : ℕ) (k : Keeper) (healthy : Bool) (opts : TxSenderOptions) (args : SendArgs)
    (pre : Preflight) (net : ℕ → PassReplies) (s : Sender)
    → is_ready now k opts.min_balance_wei healthy ≡ true
    → pre.balance ≡ ok k.operator_balance_wei
    → send opts args pre net s ≡ simulate opts args pre net s pre.simulation
unfolding is_ready send check_balance
is_ready-send now k healthy opts args pre net s r b = ground arith
