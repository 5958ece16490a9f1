-- ===== src/Web/Positions.antt =====
-- The wallet's positions in the interface: `useUserPredictions` and `useLegacyClaimable` of
-- apps/web/src/hooks/useMarket.ts, and what apps/web/src/components/MyPredictions.tsx and
-- LegacyClaims.tsx make of their rows. wagmi's `readContract` of `getUserEpochs` and its `multicall`
-- are parameters, `none` where they throw. A read that does not answer in its shape leaves no rows.
pub mod Reads
pub mod Rows
pub mod Legacy
pub mod Labels
use mathlib.Core.List.{reverse}
use ponshot.Base.{
  ℕ, suc, ◌+◌, ◌-◌, ◌*◌, ◌==◌, Bool, true, false, not, ◌||◌, Option, none, some, ◌>>=◌, List, [],
  ◌∷◌, ◌++◌, map, sum, get_elem?, ltb, filter, if◌then◌else◌,
}
use ponshot.Sdk.Types.{Round, RoundTerms, BetInfo, Phase, UserRoundStatus}
use ponshot.Sdk.Payout.{user_round_status}

-- The entries of a multicall, for the wallet at an address, and what they answer.
pub data ContractRead : Type 0 where
  get_round get_round_terms phase_of : (epoch : ℕ) → ContractRead
  get_bet claimable refundable : (epoch address : ℕ) → ContractRead

pub data ReadResult : Type 0 where
  a_round : Round → ReadResult
  a_terms : RoundTerms → ReadResult
  a_bet : BetInfo → ReadResult
  a_phase : Phase → ReadResult
  an_amount : ℕ → ReadResult

abbrev pub as_round : ReadResult → Option Round
as_round (a_round r) = some r
as_round _ = none

abbrev pub as_terms : ReadResult → Option RoundTerms
as_terms (a_terms t) = some t
as_terms _ = none

abbrev pub as_bet : ReadResult → Option BetInfo
as_bet (a_bet b) = some b
as_bet _ = none

abbrev pub as_phase : ReadResult → Option Phase
as_phase (a_phase p) = some p
as_phase _ = none

abbrev pub as_amount : ReadResult → Option ℕ
as_amount (an_amount n) = some n
as_amount _ = none

pub record UserPredictionRow : Type 0 where
  pub epoch : ℕ
  pub round : Round
  pub terms : RoundTerms
  pub bet : BetInfo
  pub phase : Phase
  pub claimable : ℕ
  pub refundable : ℕ

-- `ordered.flatMap`
abbrev pub prediction_calls : ℕ → List ℕ → List ContractRead
prediction_calls address [] = []
prediction_calls address (epoch ∷ epochs) =
    get_round epoch
    ∷ get_round_terms epoch
    ∷ get_bet epoch address
    ∷ phase_of epoch
    ∷ ContractRead.claimable epoch address
    ∷ ContractRead.refundable epoch address
    ∷ prediction_calls address epochs

-- The row of an epoch at index `i`, from `results[i * 6]` on.
abbrev pub row_at : List ReadResult → (i epoch : ℕ) → Option UserPredictionRow
row_at results i epoch = do
  round ← get_elem? results (i * 6 + 0) >>= as_round
  terms ← get_elem? results (i * 6 + 1) >>= as_terms
  bet ← get_elem? results (i * 6 + 2) >>= as_bet
  phase ← get_elem? results (i * 6 + 3) >>= as_phase
  won ← get_elem? results (i * 6 + 4) >>= as_amount
  back ← get_elem? results (i * 6 + 5) >>= as_amount
  some (record {
    epoch = epoch;
    round = round;
    terms = terms;
    bet = bet;
    phase = phase;
    claimable = won;
    refundable = back;
  })

-- `epochs.map((epoch, i) => ...)`, from an index on.
unfoldable pub rows_from {ℓ} : {A : Type ℓ} → (ℕ → ℕ → Option A) → ℕ → List ℕ → Option (List A)
rows_from row i [] = some []
rows_from row i (epoch ∷ epochs) = do
  r ← row i epoch
  rest ← rows_from row (i + 1) epochs
  some (r ∷ rest)

-- wagmi's answers: a page of `getUserEpochs` with the number of all epochs, and a multicall.
pub record Wagmi : Type 0 where
  pub user_epochs : (market address offset limit : ℕ) → Option (List ℕ × ℕ)
  pub multicall : (market : ℕ) → List ContractRead → Option (List ReadResult)

-- The page of the latest epochs, `none` of it where the wallet has no epochs at all.
unfoldable pub latest_page : Wagmi → (market address limit : ℕ) → Option (Option (List ℕ))
latest_page w market address limit = do
  (first, count) ← w.user_epochs market address 0 1
  if count == 0 then some none else do
    (epochs, total) ← w.user_epochs market address (count - limit) limit
    some (some epochs)

abbrev pub predictions_of :
    Wagmi → (market address : ℕ) → Option (List ℕ) → Option (List UserPredictionRow)
predictions_of w market address none = some []
predictions_of w market address (some epochs) = do
  results ← w.multicall market (prediction_calls address (reverse epochs))
  rows_from (row_at results) 0 (reverse epochs)

-- The query of `useUserPredictions`.
unfoldable pub use_user_predictions :
    Wagmi → (market address : Option ℕ) → (limit : ℕ) → Option (List UserPredictionRow)
unfolding latest_page rows_from
use_user_predictions w (some market) (some address) limit =
    latest_page w market address limit >>= predictions_of w market address
use_user_predictions w _ _ limit = some []

pub record LegacyRow : Type 0 where
  pub epoch : ℕ
  pub claimable : ℕ
  pub refundable : ℕ

-- `epochs.flatMap`
abbrev pub legacy_calls : ℕ → List ℕ → List ContractRead
legacy_calls address [] = []
legacy_calls address (epoch ∷ epochs) =
    ContractRead.claimable epoch address
    ∷ ContractRead.refundable epoch address
    ∷ legacy_calls address epochs

abbrev pub legacy_row : List ReadResult → (i epoch : ℕ) → Option LegacyRow
legacy_row results i epoch = do
  won ← get_elem? results (i * 2 + 0) >>= as_amount
  back ← get_elem? results (i * 2 + 1) >>= as_amount
  some (record { epoch = epoch; claimable = won; refundable = back })

abbrev pub is_owed : LegacyRow → Bool
is_owed r = ltb 0 r.claimable || ltb 0 r.refundable

abbrev pub legacy_of : Wagmi → (market address : ℕ) → Option (List ℕ) → Option (List LegacyRow)
legacy_of w market address none = some []
legacy_of w market address (some epochs) = do
  results ← w.multicall market (legacy_calls address epochs)
  rows ← rows_from (legacy_row results) 0 epochs
  some (filter is_owed rows)

-- The query of `useLegacyClaimable`.
unfoldable pub use_legacy_claimable :
    Wagmi → (market address : Option ℕ) → (limit : ℕ) → Option (List LegacyRow)
unfolding latest_page rows_from
use_legacy_claimable w (some market) (some address) limit =
    latest_page w market address limit >>= legacy_of w market address
use_legacy_claimable w _ _ limit = some []

-- `collectable` and `total` of MyPredictions.
abbrev pub is_collectable : UserPredictionRow → Bool
is_collectable r = ltb 0 r.claimable || ltb 0 r.refundable

unfoldable pub collectable : List UserPredictionRow → List UserPredictionRow
collectable rows = filter is_collectable rows

unfoldable pub collectable_total : List UserPredictionRow → ℕ
unfolding collectable
collectable_total rows = sum (map (λ r. r.claimable + r.refundable) (collectable rows))

-- The epochs that `claim` sends to the market; `none` is that it sends nothing.
abbrev pub claim_request : (market : Option ℕ) → List ℕ → Option (List ℕ)
claim_request none epochs = none
claim_request (some market) [] = none
claim_request (some market) epochs = some epochs

-- The button that claims all.
unfoldable pub claim_all : (market : Option ℕ) → List UserPredictionRow → Option (List ℕ)
unfolding collectable
claim_all market rows = claim_request market (map (λ r. r.epoch) (collectable rows))

-- The cells of a row that are not a column of it.
pub data PayoutCell : Type 0 where
  payout : ℕ → PayoutCell
  was_collected dash : PayoutCell

abbrev pub is_claimed : UserRoundStatus → Bool
is_claimed UserRoundStatus.claimed = true
is_claimed _ = false

pub record Cells : Type 0 where
  pub status : UserRoundStatus
  pub payout : PayoutCell
  pub can_claim : Bool

unfoldable pub cells : UserPredictionRow → Cells
unfolding user_round_status
cells r =
    let status = user_round_status r.round r.bet r.terms.outcome r.phase in
    let owed = r.claimable + r.refundable in
    record {
      status = status;
      payout =
          if ltb 0 owed
          then PayoutCell.payout owed
          else if is_claimed status
          then PayoutCell.was_collected
          else PayoutCell.dash;
      can_claim = ltb 0 owed;
    }

-- What LegacyClaims shows: nothing, or the total with the epochs that its button claims.
unfoldable pub legacy_panel :
    (legacy : Option ℕ) → (connected : Bool) → Option (List LegacyRow) → Option (ℕ × List ℕ)
legacy_panel none connected rows = none
legacy_panel (some market) false rows = none
legacy_panel (some market) true none = none
legacy_panel (some market) true (some []) = none
legacy_panel (some market) true (some rows) =
    some (sum (map (λ r. r.claimable + r.refundable) rows), map (λ r. r.epoch) rows)
