-- ===== src/Market/Entry.antt =====
-- The contract's `betBull`, `betBear` and `_enter` as far as they refuse a stake, and `phaseOf`.
-- `cancellable` is the contract's own judgement of a round's cancellation.
use ponshot.Base.{ℕ, ◌+◌, Bool, not, ◌&&◌, ◌==◌, ltb, leb, Option, none, some, if◌then◌else◌}
use ponshot.Sdk.Types.{RoundStatus, Round, BetInfo, Phase}

pub record Rules : Type 0 where
  pub minimum_bet : ℕ
  pub maximum_bet : ℕ
  pub maximum_round_pool : ℕ
  pub paused : Bool

-- The errors that the contract reverts with.
pub data Refusal : Type 0 where
  is_paused round_not_found round_not_open entries_closed : Refusal
  stake_below_minimum stake_above_maximum already_entered round_pool_exceeded : Refusal

-- The checks on the stake, and then on the wallet's bet and the pool.
abbrev pub stake_refusal : Rules → Round → BetInfo → ℕ → Option Refusal
stake_refusal rules r bet amount =
    if ltb amount rules.minimum_bet
    then some Refusal.stake_below_minimum
    else if not (rules.maximum_bet == 0) && ltb rules.maximum_bet amount
    then some Refusal.stake_above_maximum
    else if not (bet.amount == 0)
    then some Refusal.already_entered
    else if not (rules.maximum_round_pool == 0)
        && ltb rules.maximum_round_pool (r.total_amount + amount)
    then some Refusal.round_pool_exceeded
    else none

-- What a stake is refused for at a time; `none` is that it is taken.
unfoldable pub enter_refusal : Rules → (now : ℕ) → Round → BetInfo → ℕ → Option Refusal
enter_refusal rules now r bet amount =
    if rules.paused then some Refusal.is_paused else elim r.status [
      | RoundStatus.pending ↦ some Refusal.round_not_found
      | RoundStatus.open_round ↦
          if leb r.lock_timestamp now
          then some Refusal.entries_closed
          else if ltb now r.start_timestamp
          then some Refusal.round_not_open
          else stake_refusal rules r bet amount
      | _ ↦ some Refusal.round_not_open
    ]

unfoldable pub phase_of : (cancellable : Bool) → (now : ℕ) → Round → Phase
phase_of cancellable now r = elim r.status [
  | RoundStatus.pending ↦ Phase.pending
  | RoundStatus.cancelled ↦ Phase.cancelled
  | RoundStatus.settled ↦ Phase.settled
  | RoundStatus.open_round ↦
      if cancellable
      then Phase.cancellable
      else if ltb now r.lock_timestamp
      then Phase.open_phase
      else Phase.awaiting_lock
  | RoundStatus.locked ↦
      if cancellable
      then Phase.cancellable
      else if ltb now r.close_timestamp
      then Phase.live
      else Phase.awaiting_settle
]
