-- ===== src/Sdk/Tokenomics.antt =====
-- packages/sdk/src/tokenomics.ts: how a round resolved, and how a burn allocation is split.
use Prim.Native.String.{String}
use text.Mathlib.Text.{◌==◌ as str_eq}
use ponshot.Base.{ℕ, ◌*◌, ◌/◌, Bool, true, false, ◌==◌, ltb, if◌then◌else◌}
use ponshot.Base.Int.{ℤ, sub_ℕ}
use ponshot.Sdk.Types.{Outcome, Round}

pub record OutcomeDescription : Type 0 where
  pub label : String
  pub detail : String
  pub refunded : Bool
  pub burned_whole_pot : Bool

abbrev undecided_description : OutcomeDescription
undecided_description = record {
  label = "—";
  detail = "Not settled yet.";
  refunded = false;
  burned_whole_pot = false;
}

-- The table `BY_NAME`, read at a name; the fallback is the source's `?? UNDECIDED`.
unfoldable pub by_name : String → OutcomeDescription
by_name name =
    if str_eq name "BULL"
    then record {
      label = "UP";
      detail = "Up entries shared the pot.";
      refunded = false;
      burned_whole_pot = false;
    }
    else if str_eq name "BEAR"
    then record {
      label = "DOWN";
      detail = "Down entries shared the pot.";
      refunded = false;
      burned_whole_pot = false;
    }
    else if str_eq name "TIE"
    then record {
      label = "Tie — refunded";
      detail = "The price did not move, so every entry was returned in full.";
      refunded = true;
      burned_whole_pot = false;
    }
    else if str_eq name "NO_CONTEST"
    then record {
      label = "No contest — refunded";
      detail =
          "Nobody took the other side, so nothing was won and every entry was returned in full.";
      refunded = true;
      burned_whole_pot = false;
    }
    else if str_eq name "ALL_LOST"
    then record {
      label = "No winners — pot burned";
      detail = "Every entry was on the losing side, so the whole pot bought and burned tokens.";
      refunded = false;
      burned_whole_pot = true;
    }
    else if str_eq name "CANCELLED"
    then record {
      label = "Cancelled — refunded";
      detail =
          "The round could not be priced within tolerance, so every entry was returned in full.";
      refunded = true;
      burned_whole_pot = false;
    }
    else undecided_description

-- `BY_VALUE`, which has no entry for `Undecided`; the lookup then goes to `BY_NAME[""]`.
unfoldable pub by_value : Outcome → String
by_value Outcome.undecided = ""
by_value Outcome.bull = "BULL"
by_value Outcome.bear = "BEAR"
by_value Outcome.tie = "TIE"
by_value Outcome.no_contest = "NO_CONTEST"
by_value Outcome.all_lost = "ALL_LOST"

-- The argument of `describeOutcome`: absent, a value of the chain, or the indexer's name.
pub data OutcomeInput : Type 0 where
  absent : OutcomeInput
  value : Outcome → OutcomeInput
  name : String → OutcomeInput

unfoldable pub describe_outcome : OutcomeInput → OutcomeDescription
unfolding by_name by_value
describe_outcome absent = undecided_description
describe_outcome (value o) = by_name (by_value o)
describe_outcome (name s) = by_name s

pub record BurnSplit : Type 0 where
  pub pons : ℕ
  pub project : ℤ

unfoldable pub split_burn_allocation : ℕ → ℕ → BurnSplit
split_burn_allocation amount share_pons_bps =
    let pons = amount * share_pons_bps / 10000 in
    record { pons = pons; project = sub_ℕ amount pons }

unfoldable pub derive_outcome : Round → Outcome
derive_outcome round =
    let bull_wins = ltb round.lock_price round.close_price in
    let winning = if bull_wins then round.bull_amount else round.bear_amount in
    let losing = if bull_wins then round.bear_amount else round.bull_amount in
    if round.total_amount == 0
    then Outcome.no_contest
    else if round.close_price == round.lock_price
    then Outcome.tie
    else if winning == 0
    then Outcome.all_lost
    else if losing == 0
    then Outcome.no_contest
    else (if bull_wins then Outcome.bull else Outcome.bear)
