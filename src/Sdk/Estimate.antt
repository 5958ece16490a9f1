-- ===== src/Sdk/Estimate.antt =====
-- `estimatePayout` of packages/sdk/src/payout.ts against the contract, for a stake
-- that nobody follows and whose side wins.
use ponshot.Base.{
  ℕ, ◌+◌, ◌-◌, ◌*◌, ◌/◌, ◌<◌, ◌≡◌, refl, ◌≢◌, inl, inr, false, arith, Bool-cases, ◌==◌,
}
use ponshot.Base.Int.{pos}
use ponshot.Base.Division.{share-lt}
use ponshot.Sdk.Types.{Position, Round, BetInfo}
use ponshot.Sdk.Payout.{estimate_payout}
use ponshot.Market.Settlement.{max_bps, try_settle, entitlement}

-- `_enter` of the contract, as far as it keeps the round's totals.
unfoldable pub enter : Position → ℕ → Round → Round
enter Position.bull stake r = record r {
  total_amount = r.total_amount + stake;
  bull_amount = r.bull_amount + stake;
}
enter Position.bear stake r = record r {
  total_amount = r.total_amount + stake;
  bear_amount = r.bear_amount + stake;
}

abbrev pub side_of : Position → Round → ℕ
side_of Position.bull r = r.bull_amount
side_of Position.bear r = r.bear_amount

abbrev pub other_side : Position → Round → ℕ
other_side Position.bull r = r.bear_amount
other_side Position.bear r = r.bull_amount

-- The closing price makes the side win.
abbrev pub Wins : Position → Round → ℕ → Type 0
Wins Position.bull r price = r.lock_price < price
Wins Position.bear r price = price < r.lock_price

abbrev pub unclaimed_bet : Position → ℕ → BetInfo
unclaimed_bet p stake = record { position = p; amount = stake; claimed = false }

-- The contract's grant to a stake on the winning side.
abbrev pub grant : Position → ℕ → Round → ℕ → ℕ → ℕ
grant p stake r bps price =
    let s = try_settle r bps price in (entitlement s.round s.outcome (unclaimed_bet p stake)).1

-- What a stake collects of a pool, at a fee.
abbrev cut : ℕ → ℕ → ℕ → ℕ → ℕ
cut stake total bps side = stake * (total - total * bps / max_bps) / side

estimate_payout-alone : (stake side bps : ℕ) → (estimate_payout stake side 0 bps).payout ≡ pos stake
unfolding estimate_payout
estimate_payout-alone stake side bps = ground arith

estimate_payout-contested :
    (stake side other bps : ℕ)
    → side + stake ≢ 0
    → other ≢ 0
    → bps < max_bps
    → (estimate_payout stake side other bps).payout
      ≡ pos (cut stake (side + stake + other) bps (side + stake))
unfolding estimate_payout
estimate_payout-contested stake side other bps some_side some_other fee =
    ground (arith, share-lt (side + stake + other) bps (omega arith) fee)

grant-alone :
    (p : Position) (stake : ℕ) (r : Round) (bps price : ℕ)
    → stake ≢ 0
    → r.total_amount ≢ 0
    → side_of p r ≢ 0
    → other_side p r ≡ 0
    → Wins p r price
    → grant p stake r bps price ≡ stake
unfolding try_settle entitlement
grant-alone Position.bull stake r bps price s t a o w = ground arith
grant-alone Position.bear stake r bps price s t a o w = ground arith

grant-contested :
    (p : Position) (stake : ℕ) (r : Round) (bps price : ℕ)
    → stake ≢ 0
    → r.total_amount ≢ 0
    → side_of p r ≢ 0
    → other_side p r ≢ 0
    → Wins p r price
    → grant p stake r bps price ≡ cut stake r.total_amount bps (side_of p r)
unfolding try_settle entitlement
grant-contested Position.bull stake r bps price s t a o w = ground arith
grant-contested Position.bear stake r bps price s t a o w = ground arith

estimate-grant :
    (p : Position) (stake side other bps price : ℕ) (r : Round)
    → stake ≢ 0
    → bps < max_bps
    → side_of p r ≡ side + stake
    → other_side p r ≡ other
    → r.total_amount ≡ side + stake + other
    → Wins p r price
    → (estimate_payout stake side other bps).payout ≡ pos (grant p stake r bps price)
estimate-grant p stake side other bps price r some_stake fee a o t w =
    elim (Bool-cases (other == 0)) [
      | inl alone ↦
          let none_other : other ≡ 0 = ground arith in
          rw none_other (
            rw
              (grant-alone p stake r bps price some_stake (omega arith) (omega arith) (omega arith)
                w)
              (estimate_payout-alone stake side bps))
      | inr contested ↦
          let some_other : other ≢ 0 = ground arith in
          rw
            (grant-contested p stake r bps price some_stake (omega arith) (omega arith)
              (omega arith) w)
            (rw (a, t)
              (estimate_payout-contested stake side other bps (omega arith) some_other fee))
    ]

-- For a stake that is not 0, at a fee below 100%, in a round whose total is that of its sides: the
-- payout shown, before the stake is entered, is the amount that the contract grants the stake once
-- it is entered, nothing else is, and the round closes in favour of its side. That holds on either
-- side, and also where nobody has taken the other side and the contract refunds.
pub estimate_payout-entitlement :
    (p : Position) (stake bps price : ℕ) (r : Round)
    → stake ≢ 0
    → bps < max_bps
    → r.total_amount ≡ r.bull_amount + r.bear_amount
    → Wins p r price
    → (estimate_payout stake (side_of p r) (other_side p r) bps).payout
      ≡ pos (grant p stake (enter p stake r) bps price)
unfolding enter
estimate_payout-entitlement Position.bull stake bps price r s f t w =
    estimate-grant Position.bull stake r.bull_amount r.bear_amount bps price
      (enter Position.bull stake r) s f refl refl (omega arith) w
estimate_payout-entitlement Position.bear stake bps price r s f t w =
    estimate-grant Position.bear stake r.bear_amount r.bull_amount bps price
      (enter Position.bear stake r) s f refl refl (omega arith) w
