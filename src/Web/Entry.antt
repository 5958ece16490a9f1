-- ===== src/Web/Entry.antt =====
-- Entering a round in the interface: what opens the modal in apps/web/src/components/PredictPanel.tsx
-- and QuickBet.tsx, and the checks, the `setMax` and the `submit` of PredictionModal.tsx. viem's
-- `parseEther` is a parameter, `none` where it throws, and so is `formatEther`.
pub mod Submit
use ponshot.Base.Int.{ℤ, pos, negsuc}
use ponshot.Base.Text.{Text, trim}
use ponshot.Base.{
  ℕ, ◌+◌, ◌-◌, Bool, true, false, not, ◌&&◌, ◌||◌, ltb, leb, Option, none, some, [], ◌∷◌,
  if◌then◌else◌,
}
use ponshot.Sdk.Types.{Round, BetInfo, Phase}

-- `seconds === 0` of `useCountdown`, where `seconds` is `Math.max(0, target - now)`.
abbrev pub is_expired : (target now : ℕ) → Bool
is_expired target now = leb target now

-- The figures that the modal has when it judges an amount.
pub record Modal : Type 0 where
  pub address : Option ℕ
  pub clock : ℕ
  pub amount : Text
  pub bull : Bool
  pub round : Round
  pub minimum_bet : ℕ
  pub maximum_bet : ℕ
  pub maximum_round_pool : ℕ
  pub balance : Option ℕ

abbrev pub positive : Option ℤ → Option ℕ
positive (some (pos n)) = if ltb 0 n then some n else none
positive _ = none

-- `parsed`
unfoldable pub parsed : (Text → Option ℤ) → Text → Option ℕ
unfolding trim
parsed parse_ether amount = elim (trim amount) [ [] ↦ none | c ∷ t ↦ positive (parse_ether amount) ]

-- The reasons that the modal shows.
pub data Problem : Type 0 where
  connect_wallet entries_closed invalid_amount below_minimum above_maximum : Problem
  pool_capped not_enough : Problem

abbrev pub covers : ℕ → Option ℕ → Bool
covers value none = true
covers value (some balance) = ltb value balance

-- The checks of an amount that parses.
abbrev pub value_problem : Modal → ℕ → Option Problem
value_problem m v =
    if ltb v m.minimum_bet
    then some Problem.below_minimum
    else if ltb 0 m.maximum_bet && ltb m.maximum_bet v
    then some Problem.above_maximum
    else if ltb 0 m.maximum_round_pool && ltb m.maximum_round_pool (m.round.total_amount + v)
    then some Problem.pool_capped
    else if not (covers v m.balance)
    then some Problem.not_enough
    else none

abbrev pub amount_problem : Modal → Option ℕ → Option Problem
amount_problem m (some v) = value_problem m v
amount_problem m none = elim (trim m.amount) [ [] ↦ none | c ∷ t ↦ some Problem.invalid_amount ]

unfoldable pub problem : (Text → Option ℤ) → Modal → Option Problem
unfolding parsed trim
problem parse_ether m = elim m.address [
  | none ↦ some Problem.connect_wallet
  | some account ↦
      if is_expired m.round.lock_timestamp m.clock
      then some Problem.entries_closed
      else amount_problem m (parsed parse_ether m.amount)
]

-- The call that is written: the side, the epoch and the value.
pub record Entering : Type 0 where
  pub bull : Bool
  pub epoch : ℕ
  pub value : ℕ

abbrev pub written : Modal → Option ℕ → Option Problem → Option Entering
written m none p = none
written m (some v) (some p) = none
written m (some v) none = some (record { bull = m.bull; epoch = m.round.epoch; value = v })

unfoldable pub submit : (Text → Option ℤ) → Modal → Option Entering
unfolding parsed problem
submit parse_ether m = written m (parsed parse_ether m.amount) (problem parse_ether m)

-- `setMax`: the amount of the modal after it. The reserve is 0.002 ETH.
abbrev pub reserve : ℕ
reserve = 2000000000000000

abbrev pub usable : ℕ → ℕ → ℕ
usable balance maximum_bet =
    let left = if ltb reserve balance then balance - reserve else 0 in
    if ltb 0 maximum_bet && ltb maximum_bet left then maximum_bet else left

unfoldable pub set_max : (ℕ → Text) → Modal → Modal
set_max format_ether m = elim m.balance [
  | none ↦ m
  | some b ↦ record m { amount = format_ether (usable b m.maximum_bet) }
]

abbrev pub is_open_phase : Phase → Bool
is_open_phase Phase.open_phase = true
is_open_phase _ = false

-- Whether the buttons of the panel and the row of quick stakes can be pressed.
abbrev pub panel_enabled : (paused : Bool) → Phase → BetInfo → Bool
panel_enabled paused phase bet = not (paused || not (is_open_phase phase) || ltb 0 bet.amount)

abbrev pub quick_enabled : (paused : Bool) → Phase → Bool
quick_enabled paused phase = not (paused || not (is_open_phase phase))
