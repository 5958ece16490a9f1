-- ===== src/Market/Claims/Paid.antt =====
-- What a claim of several epochs pays, and what it leaves.
use ponshot.Sdk.Types.{BetInfo, Round, Outcome}
use ponshot.Base.{
  ℕ, ◌+◌, ◌-◌, ◌==◌, ◌≤◌, ◌<◌, ◌≡◌, ◌≢◌, refl, Bool, true, false, List, [], ◌∷◌, All, map, sum,
  arith, ltb, ◌∙◌, sym, ap, if◌then◌else◌,
}
use ponshot.Base.Every.{IsDistinct}
use ponshot.Market.Settlement.{entitlement}
use ponshot.Market.Claims.{
  Holding, Claimed, entitled, claimable, refundable, collect, set_claimed, claim_loop, claim,
  pay_out, ClaimError,
}

-- What the wallet may collect of an epoch, winnings or stake.
abbrev pub owing : Holding → ℕ → ℕ
owing h epoch = (entitled h epoch).1

pub claimable-refundable :
    (h : Holding) (epoch : ℕ) → claimable h epoch + refundable h epoch ≡ owing h epoch
unfolding claimable refundable
claimable-refundable h epoch = ground arith

-- The wallet's bets after all the epochs are collected.
abbrev pub collect_all : List ℕ → Holding → Holding
collect_all [] h = h
collect_all (epoch ∷ epochs) h = collect_all epochs (collect epoch h)

set_claimed_other :
    (epoch x : ℕ) (ledger : ℕ → BetInfo) → epoch ≢ x → set_claimed epoch ledger x ≡ ledger x
set_claimed_other epoch x ledger d = ground (arith, λ (e : x ≡ epoch). d (sym e))

set_claimed_own :
    (epoch : ℕ) (ledger : ℕ → BetInfo)
    → set_claimed epoch ledger epoch ≡ record (ledger epoch) { claimed = true }
set_claimed_own epoch ledger = ground arith

entitlement-claimed :
    (r : Round) (o : Outcome) (b : BetInfo) → b.claimed ≡ true → (entitlement r o b).1 ≡ 0
unfolding entitlement
entitlement-claimed r o b c = ground arith

collect_other : (h : Holding) (epoch x : ℕ) → epoch ≢ x → owing (collect epoch h) x ≡ owing h x
collect_other h epoch x d =
    ap (λ b. (entitlement (h.rounds x) (h.terms x).outcome b).1)
      (set_claimed_other epoch x h.ledger d)

collect_own : (h : Holding) (epoch : ℕ) → owing (collect epoch h) epoch ≡ 0
collect_own h epoch =
    ap (λ b. (entitlement (h.rounds epoch) (h.terms epoch).outcome b).1)
      (set_claimed_own epoch h.ledger)
    ∙ entitlement-claimed (h.rounds epoch) (h.terms epoch).outcome _ refl

entitlement_open :
    (r : Round) (o : Outcome) (b : BetInfo)
    → 0 < (entitlement r o b).1
    → ((b.amount == 0) ≡ false) × (b.claimed ≡ false)
unfolding entitlement
entitlement_open r o b p = ground arith

-- Every one of the epochs owes the wallet something.
abbrev pub AllOwing : Holding → List ℕ → Type 0
AllOwing h epochs = All (λ x. 0 < owing h x) epochs

collect-AllOwing :
    (h : Holding) (epoch : ℕ) (epochs : List ℕ)
    → All (λ y. epoch ≢ y) epochs
    → AllOwing h epochs
    → AllOwing (collect epoch h) epochs
collect-AllOwing h epoch [] d a = tt
collect-AllOwing h epoch (x ∷ xs) d a =
    (rw (collect_other h epoch x d.0) a.0, collect-AllOwing h epoch xs d.1 a.1)

collect-sum :
    (h : Holding) (epoch : ℕ) (epochs : List ℕ)
    → All (λ y. epoch ≢ y) epochs
    → sum (map (owing (collect epoch h)) epochs) ≡ sum (map (owing h) epochs)
collect-sum h epoch [] d = refl
collect-sum h epoch (x ∷ xs) d =
    rw (collect_other h epoch x d.0) (omega (arith, collect-sum h epoch xs d.1))

-- One step of the loop.
claim_loop_step :
    (sends : ℕ → Bool) (epoch : ℕ) (epochs : List ℕ) (payout : ℕ) (h : Holding)
    → 0 < owing h epoch
    → claim_loop sends (epoch ∷ epochs) payout h
      ≡ claim_loop sends epochs (payout + owing h epoch) (collect epoch h)
unfolding claim_loop
claim_loop_step sends epoch epochs payout h p =
    let (amount, fresh) =
      entitlement_open (h.rounds epoch) (h.terms epoch).outcome (h.ledger epoch) p in
    let some_amount : ((entitled h epoch).1 == 0) ≡ false = ground (arith, p) in
    rw (amount, some_amount)
      (ap
        (λ c.
          if c
          then Claimed.reverted (ClaimError.already_claimed epoch)
          else claim_loop sends epochs (payout + owing h epoch) (collect epoch h))
        fresh)

claim_loop_runs :
    (sends : ℕ → Bool) (epochs : List ℕ) (payout : ℕ) (h : Holding)
    → IsDistinct epochs
    → AllOwing h epochs
    → claim_loop sends epochs payout h
      ≡ pay_out sends (payout + sum (map (owing h) epochs)) (collect_all epochs h)
unfolding claim_loop
claim_loop_runs sends [] payout h d a = ap (λ n. pay_out sends n h) (omega arith)
claim_loop_runs sends (x ∷ xs) payout h d a =
    claim_loop_step sends x xs payout h a.0
    ∙ claim_loop_runs sends xs (payout + owing h x) (collect x h) d.1
        (collect-AllOwing h x xs d.0 a.1)
    ∙ ap (λ n. pay_out sends n (collect_all xs (collect x h)))
        (omega (arith, collect-sum h x xs d.0))

-- Collecting more takes nothing back.
collect_all_still :
    (epochs : List ℕ) (h : Holding) (x : ℕ)
    → (h.ledger x).claimed ≡ true
    → ((collect_all epochs h).ledger x).claimed ≡ true
collect_all_still [] h x c = c
collect_all_still (e ∷ es) h x c = collect_all_still es (collect e h) x (ground (arith, c))

collect_all_done :
    (epochs : List ℕ) (h : Holding) → All (λ x. owing (collect_all epochs h) x ≡ 0) epochs
collect_all_done [] h = tt
collect_all_done (e ∷ es) h = (
  entitlement-claimed ((collect_all es (collect e h)).rounds e)
      ((collect_all es (collect e h)).terms e).outcome _
      (collect_all_still es (collect e h) e (ground arith)),
  collect_all_done es (collect e h),
)

collect_all_liabilities :
    (epochs : List ℕ) (h : Holding) → (collect_all epochs h).total_liabilities ≡ h.total_liabilities
collect_all_liabilities [] h = refl
collect_all_liabilities (e ∷ es) h = collect_all_liabilities es (collect e h)

-- A claim of different epochs that each owe the wallet something, if the contract's books cover them
-- and the wallet takes the money: it pays what they owe together, takes that off the books, and
-- leaves nothing owing for them.
pub claim_pays :
    (sends : ℕ → Bool) (epochs : List ℕ) (h : Holding)
    → IsDistinct epochs
    → AllOwing h epochs
    → let total = sum (map (owing h) epochs) in
      total ≤ h.total_liabilities
      → sends total ≡ true
      → (after : Holding) × (claim sends epochs h ≡ Claimed.paid total after)
        × (after.total_liabilities ≡ h.total_liabilities - total)
        × All (λ x. owing after x ≡ 0) epochs
unfolding claim
claim_pays sends epochs h d a covered takes =
    let total = sum (map (owing h) epochs) in
    let end = collect_all epochs h in
    let same = collect_all_liabilities epochs h in
    let fine : ltb end.total_liabilities total ≡ false = rw same (ground (arith, covered)) in
    (
      record end { total_liabilities = end.total_liabilities - total },
      claim_loop_runs sends epochs 0 h d a
          ∙ (let all : 0 + total ≡ total = omega arith in ap (λ n. pay_out sends n end) all)
          ∙ rw (pay_out, fine, takes) refl,
      ap (λ n. n - total) same,
      collect_all_done epochs h,
    )
