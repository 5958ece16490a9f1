-- ===== src/Keeper/Loop.antt =====
-- apps/keeper/src/keeper.ts: `tick` and the body of `run`. What the lock, the contracts and the
-- network answer in one tick is `Answers`; `requests` lists every call of `TxSender.send`.
pub mod Due
pub mod Kept
pub mod Handled
use ponshot.Base.{
  ℕ, ◌+◌, ◌*◌, Bool, true, false, not, ◌&&◌, ◌||◌, Option, none, some, List, [], ◌∷◌, ◌++◌, min,
  ltb, ◌==◌, if◌then◌else◌, length, is_nil,
}
use ponshot.Base.Text.{Text}
use ponshot.Keeper.State.{
  Action, execute_round, cancel_round, lock_round, settle_round, sweep_to_burner, buy_and_burn,
  KeeperState, update, mark_handled, is_handled,
}
use ponshot.Keeper.Reason.{Caught, describe_revert}
use ponshot.Keeper.Tx.{
  TxSenderOptions, SendArgs, Reply, ok, thrown, Preflight, PassReplies, Sender, SendOutcome,
  returned, threw, SendStatus, SendResult, send,
}

-- `pendingWork` of the contract.
pub record Work : Type 0 where
  pub lockable : List ℕ
  pub settleable : List ℕ
  pub cancellable : List ℕ
  pub can_start_next : Bool

-- The three reads that a tick begins with.
pub record Head : Type 0 where
  pub balance : ℕ
  pub current_epoch : ℕ
  pub paused : Bool

-- A target of the burner: what is allocated to it, and its token, 0 for none.
pub record Target : Type 0 where
  pub allocated : ℕ
  pub token : ℕ

-- The network's answers to one call of `send`.
pub record Call : Type 0 where
  pub preflight : Preflight
  pub passes : ℕ → PassReplies

-- The keeper's settings; `has_burner` is that the burner's address is not zero.
pub record KeeperConfig : Type 0 where
  pub options : TxSenderOptions
  pub poll_interval_ms : ℕ
  pub has_burner : Bool
  pub min_buyback_wei : ℕ

-- All answers in one tick; `calls n` answers the call that follows `n` others, and `clock n` is the
-- time then. `ended_at` is the time at the end of the tick.
pub record Answers : Type 0 where
  pub acquired : Bool
  pub renewed : Bool
  pub head : Reply Head
  pub work : Reply Work
  pub still : Reply (List ℕ × List ℕ)
  pub burn_allocated : Reply ℕ
  pub target : ℕ → Reply Target
  pub calls : ℕ → Call
  pub clock : ℕ → ℕ
  pub ended_at : ℕ

pub record Keeper : Type 0 where
  pub holds_lock : Bool
  pub consecutive_failures : ℕ
  pub running : Bool
  pub last_tick_at : Option ℕ
  pub last_tick_ok : Bool
  pub last_error : Option Text
  pub operator_balance_wei : ℕ
  pub current_epoch : ℕ
  pub pending : Option Work
  pub sender : Sender
  pub requests : List SendArgs

-- A part of a tick, which may throw.
abbrev pub Step : Type 0
Step = Keeper → Reply (Unit {0}) × Keeper

abbrev pub done : Step
done k = (ok tt, k)

unfoldable pub and_then : Step → Step → Step
and_then first next k = elim (first k).0 [
  | ok _ ↦ next (first k).1
  | thrown e ↦ (thrown e, (first k).1)
]

unfoldable pub for_each : (ℕ → Step) → List ℕ → Step
unfolding and_then
for_each body [] k = done k
for_each body (x ∷ xs) k = and_then (body x) (for_each body xs) k

-- A change of the durable state.
abbrev pub note : (KeeperState → KeeperState) → Keeper → Keeper
note fn k = record k { sender = record k.sender { state = update fn k.sender.state } }

abbrev pub noting : (Keeper → KeeperState → KeeperState) → Step
noting fn k = (ok tt, note (fn k) k)

abbrev pub note_epoch : ℕ → Keeper → KeeperState → KeeperState
note_epoch epoch k s = record s { last_seen_epoch = epoch }

abbrev pub args_of : Action → Option ℕ → SendArgs
args_of action epoch = record { action = action; epoch = epoch }

-- One call of `send`, and what the keeper is after it.
unfoldable pub request : KeeperConfig → Answers → SendArgs → Keeper → SendOutcome × Keeper
request cfg a args k =
    let call = a.calls (length k.requests) in
    let end = send cfg.options args call.preflight call.passes k.sender in
    (end.0, record k { sender = end.1; requests = k.requests ++ args ∷ [] })

-- An exception of `send` is one of the tick.
abbrev pub outcome_reply : SendOutcome → Reply (Unit {0})
outcome_reply (returned r) = ok tt
outcome_reply (threw e) = thrown e

-- A call of `send` whose result is not read.
unfoldable pub request_only : KeeperConfig → Answers → SendArgs → Step
unfolding request
request_only cfg a args k = let end = request cfg a args k in (outcome_reply end.0, end.1)

abbrev pub is_failed : SendStatus → Bool
is_failed SendStatus.failed = true
is_failed _ = false

abbrev pub mark : ℕ → ℕ → Keeper → Keeper
mark epoch now k = record k {
  sender = record k.sender { state = mark_handled epoch now k.sender.state };
}

abbrev pub after_cancel : ℕ → ℕ → SendOutcome → Keeper → Keeper
after_cancel epoch now (returned r) k = if is_failed r.status then k else mark epoch now k
after_cancel epoch now (threw e) k = k

-- The cancellation of one round.
unfoldable pub cancel_one : KeeperConfig → Answers → ℕ → Step
unfolding request mark_handled
cancel_one cfg a epoch k =
    if is_handled epoch k.sender.state
    then done k
    else let end = request cfg a (args_of cancel_round (some epoch)) k in
      (outcome_reply end.0, after_cancel epoch (a.clock (length end.1.requests)) end.0 end.1)

abbrev pub executes : Work → Bool
executes w = not (is_nil w.lockable) || not (is_nil w.settleable) || w.can_start_next

abbrev pub note_execution : Answers → Keeper → KeeperState → KeeperState
note_execution a k s = record s { last_execution_at = some (a.clock (length k.requests)) }

-- `executeRound`, if it can do anything.
unfoldable pub execute : KeeperConfig → Answers → Work → Step
unfolding request_only and_then update
execute cfg a w k =
    if executes w
    then and_then (request_only cfg a (args_of execute_round none)) (noting (note_execution a)) k
    else done k

-- `sweepBurnAllocation`
unfoldable pub sweep : KeeperConfig → Answers → Step
unfolding request_only
sweep cfg a k = elim a.burn_allocated [
  | ok allocated ↦
      if allocated == 0 then done k else request_only cfg a (args_of sweep_to_burner none) k
  | thrown e ↦ done k
]

-- One round of the loop of `runBuybacks`.
unfoldable pub buyback : KeeperConfig → Answers → ℕ → Step
unfolding request_only
buyback cfg a index k = elim (a.target index) [
  | ok t ↦
      if t.token == 0 || ltb t.allocated cfg.min_buyback_wei
      then done k
      else request_only cfg a (args_of (buy_and_burn index) none) k
  | thrown e ↦ done k
]

unfoldable pub run_buybacks : KeeperConfig → Answers → Step
unfolding for_each buyback
run_buybacks cfg a k = if cfg.has_burner then for_each (buyback cfg a) (0 ∷ 1 ∷ []) k else done k

-- `lockRound` or `settleRound` of one round.
abbrev pub resolve : KeeperConfig → Answers → Action → ℕ → Step
resolve cfg a action epoch = request_only cfg a (args_of action (some epoch))

-- The sweep, the buybacks and the note of the epoch.
abbrev pub wind_up : KeeperConfig → Answers → ℕ → Step
wind_up cfg a epoch =
    and_then (sweep cfg a) (and_then (run_buybacks cfg a) (noting (note_epoch epoch)))

abbrev pub settle_rest : KeeperConfig → Answers → ℕ → List ℕ → Step
settle_rest cfg a epoch epochs =
    and_then (for_each (resolve cfg a settle_round) epochs) (wind_up cfg a epoch)

-- From the second `pendingWork` on.
unfoldable pub finish : KeeperConfig → Answers → ℕ → Step
unfolding and_then for_each sweep run_buybacks request_only update
finish cfg a epoch k = elim a.still [
  | thrown e ↦ (thrown e, k)
  | ok still ↦
      and_then (for_each (resolve cfg a lock_round) still.0) (settle_rest cfg a epoch still.1) k
]

abbrev pub is_idle : Work → Bool
is_idle w = is_nil w.lockable && is_nil w.settleable && is_nil w.cancellable && not w.can_start_next

-- What a tick does with the work that the contract names.
unfoldable pub do_work : KeeperConfig → Answers → ℕ → Work → Step
unfolding and_then execute for_each cancel_one finish
do_work cfg a epoch w k =
    if is_idle w
    then done k
    else and_then (execute cfg a w)
        (and_then (for_each (cancel_one cfg a) w.cancellable) (finish cfg a epoch)) k

abbrev pub look : Head → Keeper → Keeper
look h k = record k { operator_balance_wei = h.balance; current_epoch = h.current_epoch }

-- From the reads on, with the lock held.
unfoldable pub survey : KeeperConfig → Answers → Step
unfolding do_work
survey cfg a k = elim a.head [
  | thrown e ↦ (thrown e, k)
  | ok h ↦
      let seen = look h k in
      if h.current_epoch == 0 then done seen else elim a.work [
        | thrown e ↦ (thrown e, seen)
        | ok w ↦ do_work cfg a h.current_epoch w (record seen { pending = some w })
      ]
]

unfoldable pub tick : KeeperConfig → Answers → Step
unfolding survey
tick cfg a k =
    let held = if k.holds_lock then a.renewed else a.acquired in
    let k' = record k { holds_lock = held } in if held then survey cfg a k' else done k'

-- What `run` notes at the end of a tick.
abbrev pub conclude : Answers → Reply (Unit {0}) → Keeper → Keeper
conclude a (ok _) k =
    note (λ s. record s { last_successful_tick_at = some (a.clock (length k.requests)) })
      (record k {
        last_tick_at = some a.ended_at;
        consecutive_failures = 0;
        last_tick_ok = true;
        last_error = none;
      })
conclude a (thrown e) k = record k {
  last_tick_at = some a.ended_at;
  consecutive_failures = k.consecutive_failures + 1;
  last_tick_ok = false;
  last_error = some (describe_revert e);
  sender = record k.sender { cached_nonce = none };
}

-- One iteration of the loop of `run`, up to its sleep.
unfoldable pub run_once : KeeperConfig → Answers → Keeper → Keeper
unfolding tick update
run_once cfg a k = let end = tick cfg a k in conclude a end.0 end.1

-- The milliseconds that the loop then sleeps.
unfoldable pub sleep_ms : KeeperConfig → Keeper → ℕ
sleep_ms cfg k = cfg.poll_interval_ms + min k.consecutive_failures 6 * cfg.poll_interval_ms

-- The iterations of `run`, until it is stopped.
unfoldable pub run_all : KeeperConfig → List Answers → Keeper → Keeper
unfolding run_once
run_all cfg [] k = k
run_all cfg (a ∷ rest) k = run_all cfg rest (run_once cfg a k)

unfoldable pub run : KeeperConfig → List Answers → Keeper → Keeper
unfolding run_all
run cfg ticks k = record (run_all cfg ticks (record k { running = true })) { running = false }
