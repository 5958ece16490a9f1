-- ===== src/Market/Claims.antt =====
-- The contract's `getUserEpochs`, `claimable`, `refundable` and `claim`, for one wallet. The transfer
-- of ETH to the wallet is a parameter: whether it takes an amount.
pub mod Paid
pub mod Indexed
use ponshot.Base.{
  ℕ, ◌+◌, ◌-◌, ◌==◌, Bool, List, [], ◌∷◌, drop, take, length, ltb, leb, if◌then◌else◌, true, Option,
  some, ◌++◌, none,
}
use ponshot.Sdk.Types.{Round, RoundTerms, BetInfo, Phase, Position}
use ponshot.Market.Settlement.{entitlement}

-- What the contract keeps of rounds, and of the wallet's bets; `phase` is what `phaseOf` answers.
pub record Holding : Type 0 where
  pub rounds : ℕ → Round
  pub terms : ℕ → RoundTerms
  pub phase : ℕ → Phase
  pub ledger : ℕ → BetInfo
  pub user_epochs : List ℕ
  pub total_liabilities : ℕ

-- The page and the number of all epochs.
unfoldable pub get_user_epochs : Holding → (offset limit : ℕ) → List ℕ × ℕ
get_user_epochs h offset limit =
    let total = length h.user_epochs in
    let left = total - offset in
    if leb total offset
    then ([], total)
    else (take (if ltb limit left then limit else left) (drop offset h.user_epochs), total)

abbrev pub entitled : Holding → ℕ → Bool × ℕ
entitled h epoch = entitlement (h.rounds epoch) (h.terms epoch).outcome (h.ledger epoch)

unfoldable pub claimable : Holding → ℕ → ℕ
claimable h epoch = if (entitled h epoch).0 then (entitled h epoch).1 else 0

unfoldable pub refundable : Holding → ℕ → ℕ
refundable h epoch = if (entitled h epoch).0 then 0 else (entitled h epoch).1

-- What `_enter` writes of the wallet.
abbrev pub book_bet : Position → (epoch amount : ℕ) → Holding → Holding
book_bet position epoch amount h = record h {
  ledger = λ x.
      if x == epoch
      then record (h.ledger x) { position = position; amount = amount }
      else h.ledger x;
  user_epochs = h.user_epochs ++ (epoch ∷ []);
  total_liabilities = h.total_liabilities + amount;
}

-- `_enter` once its other checks have passed; `none` is AlreadyEntered.
unfoldable pub enter_ledger : Position → (epoch amount : ℕ) → Holding → Option Holding
enter_ledger position epoch amount h =
    if (h.ledger epoch).amount == 0 then some (book_bet position epoch amount h) else none

-- Subtraction that goes below zero reverts, as do the named errors.
pub data ClaimError : Type 0 where
  nothing_to_claim already_claimed : ℕ → ClaimError
  transfer_failed : ℕ → ClaimError
  underflow : ClaimError

pub data Claimed : Type 0 where
  reverted : ClaimError → Claimed
  paid : ℕ → Holding → Claimed

-- `bet.claimed = true`
abbrev pub set_claimed : ℕ → (ℕ → BetInfo) → ℕ → BetInfo
set_claimed epoch ledger x = if x == epoch then record (ledger x) { claimed = true } else ledger x

abbrev pub collect : ℕ → Holding → Holding
collect epoch h = record h { ledger = set_claimed epoch h.ledger }

-- The end of `claim`.
abbrev pub pay_out : (sends : ℕ → Bool) → ℕ → Holding → Claimed
pay_out sends payout h =
    if ltb h.total_liabilities payout
    then Claimed.reverted ClaimError.underflow
    else if sends payout
    then Claimed.paid payout (record h { total_liabilities = h.total_liabilities - payout })
    else Claimed.reverted (ClaimError.transfer_failed payout)

unfoldable pub claim_loop : (sends : ℕ → Bool) → List ℕ → ℕ → Holding → Claimed
claim_loop sends [] payout h = pay_out sends payout h
claim_loop sends (epoch ∷ epochs) payout h =
    let rest = claim_loop sends epochs (payout + (entitled h epoch).1) (collect epoch h) in
    if (h.ledger epoch).amount == 0
    then Claimed.reverted (ClaimError.nothing_to_claim epoch)
    else if (h.ledger epoch).claimed
    then Claimed.reverted (ClaimError.already_claimed epoch)
    else if (entitled h epoch).1 == 0
    then Claimed.reverted (ClaimError.nothing_to_claim epoch)
    else rest

unfoldable pub claim : (sends : ℕ → Bool) → List ℕ → Holding → Claimed
unfolding claim_loop
claim sends epochs h = claim_loop sends epochs 0 h
