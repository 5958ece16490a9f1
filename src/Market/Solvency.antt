-- ===== src/Market/Solvency.antt =====
-- What a settlement entitles the entrants to, over a round's whole ledger.
use ponshot.Base.{
  ℕ, ◌+◌, ◌*◌, ◌/◌, ◌≤◌, ◌<◌, ◌≡◌, ◌⊎◌, inl, inr, Bool, true, false, List, [], ◌∷◌, arith,
  if◌then◌else◌,
}
use native.Mathlib.Nat.{le_trans, le_of_eq}
use ponshot.Base.Division.{div-add-le, mul-div_self, share-le}
use ponshot.Sdk.Types.{Position, RoundStatus, Outcome, Round, BetInfo}
use ponshot.Sdk.Payout.{is_refunding}
use ponshot.Market.Settlement.{max_bps, Settlement, try_settle, entitlement}

-- The stakes on one side of a ledger.
abbrev pub is_on : Position → Position → Bool
is_on Position.bull Position.bull = true
is_on Position.bear Position.bear = true
is_on _ _ = false

abbrev pub on_side : Position → BetInfo → ℕ
on_side p b = if is_on p b.position then b.amount else 0

abbrev pub staked : Position → List BetInfo → ℕ
staked p [] = 0
staked p (b ∷ bs) = on_side p b + staked p bs

-- What the entrants may collect together.
abbrev pub owed : Round → Outcome → List BetInfo → ℕ
owed r o [] = 0
owed r o (b ∷ bs) = (entitlement r o b).1 + owed r o bs

-- The round's totals are those of its ledger, as `_enter` keeps them.
pub record IsTallied (r : Round) (bets : List BetInfo) : Type 0 where
  pub bull_tallied : staked Position.bull bets ≡ r.bull_amount
  pub bear_tallied : staked Position.bear bets ≡ r.bear_amount
  pub total_tallied : r.total_amount ≡ r.bull_amount + r.bear_amount

owed-refund-le :
    (r : Round) (o : Outcome) (bets : List BetInfo)
    → is_refunding o ≡ true
    → owed r o bets ≤ staked Position.bull bets + staked Position.bear bets
unfolding entitlement
owed-refund-le r o [] h = omega arith
owed-refund-le r o (b ∷ bs) h = ground (arith, owed-refund-le r o bs h)

owed-all_lost :
    (r : Round) (bets : List BetInfo)
    → r.status ≡ RoundStatus.settled
    → owed r Outcome.all_lost bets ≡ 0
unfolding entitlement
owed-all_lost r [] s = omega arith
owed-all_lost r (b ∷ bs) s = ground (arith, owed-all_lost r bs s)

-- The outcome in which a side wins.
abbrev pub won_by : Position → Outcome
won_by Position.bull = Outcome.bull
won_by Position.bear = Outcome.bear

entitlement-won-le :
    (p : Position) (r : Round) (b : BetInfo)
    → r.status ≡ RoundStatus.settled
    → (entitlement r (won_by p) b).1 ≤ on_side p b * r.reward_amount / r.reward_base_amount
unfolding entitlement
entitlement-won-le Position.bull r b s = ground arith
entitlement-won-le Position.bear r b s = ground arith

shares_join : (x y a b n d : ℕ) → 0 < d → x ≤ a * n / d → y ≤ b * n / d → x + y ≤ (a + b) * n / d
shares_join x y a b n d p h k =
    let split : (a + b) * n ≡ a * n + b * n = omega arith in
    rw split (omega (arith, div-add-le (a * n) (b * n) d p))

owed-won-le :
    (p : Position) (r : Round) (bets : List BetInfo)
    → r.status ≡ RoundStatus.settled
    → 0 < r.reward_base_amount
    → owed r (won_by p) bets ≤ staked p bets * r.reward_amount / r.reward_base_amount
owed-won-le p r [] s pos = omega arith
owed-won-le p r (b ∷ bs) s pos =
    shares_join _ _ (on_side p b) (staked p bs) r.reward_amount r.reward_base_amount pos
      (entitlement-won-le p r b s) (owed-won-le p r bs s pos)

-- The winners together are owed at most the pool that was set aside for them.
owed-won-le_reward :
    (p : Position) (r : Round) (bets : List BetInfo)
    → r.status ≡ RoundStatus.settled
    → 0 < r.reward_base_amount
    → staked p bets ≡ r.reward_base_amount
    → owed r (won_by p) bets ≤ r.reward_amount
owed-won-le_reward p r bets s pos e =
    le_trans (owed-won-le p r bets s pos)
      (rw e (le_of_eq (mul-div_self r.reward_amount r.reward_base_amount pos)))

-- The four ways in which a settlement ends.
abbrev Refunds : Round → Settlement → Type 0
Refunds r s = (is_refunding s.outcome ≡ true) × (s.fee ≡ 0)

abbrev BurnsAll : Round → Settlement → Type 0
BurnsAll r s = (s.outcome ≡ Outcome.all_lost) × (s.fee ≡ r.total_amount)

abbrev PaysSide : Position → ℕ → Round → Settlement → Type 0
PaysSide p pool r s =
    (s.outcome ≡ won_by p)
    × (s.round.reward_base_amount ≡ pool)
    × (0 < pool)
    × (s.round.reward_amount + s.fee ≡ r.total_amount)

try_settle-status :
    (r : Round) (bps price : ℕ) → (try_settle r bps price).round.status ≡ RoundStatus.settled
unfolding try_settle
try_settle-status r bps price = ground arith

try_settle-cases :
    (r : Round) (bps price : ℕ)
    → bps ≤ max_bps
    → let s = try_settle r bps price in
      Refunds r s
      ⊎ (BurnsAll r s
          ⊎ (PaysSide Position.bull r.bull_amount r s ⊎ PaysSide Position.bear r.bear_amount r s))
unfolding try_settle
try_settle-cases r bps price h = ground (arith, share-le r.total_amount bps h)

-- Settling a round whose totals are those of its ledger leaves every entrant's claim covered: what
-- the entrants may collect, with the fee that is booked, is at most what they staked.
pub try_settle_solvent :
    (r : Round) (bps price : ℕ) (bets : List BetInfo)
    → bps ≤ max_bps
    → IsTallied r bets
    → let s = try_settle r bps price in owed s.round s.outcome bets + s.fee ≤ r.total_amount
try_settle_solvent r bps price bets h t =
    let s = try_settle r bps price in
    let done = try_settle-status r bps price in
    elim (try_settle-cases r bps price h) [
      | inl (o, f) ↦ omega (arith, owed-refund-le s.round s.outcome bets o)
      | inr (inl (o, f)) ↦ rw o (omega (arith, owed-all_lost s.round bets done))
      | inr (inr (inl (o, b, pool, f))) ↦ rw o (
          omega
            (arith, owed-won-le_reward Position.bull s.round bets done (omega arith) (omega arith)))
      | inr (inr (inr (o, b, pool, f))) ↦ rw o (
          omega
            (arith, owed-won-le_reward Position.bear s.round bets done (omega arith) (omega arith)))
    ]
