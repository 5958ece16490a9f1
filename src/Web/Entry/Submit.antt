-- ===== src/Web/Entry/Submit.antt =====
-- The call that the interface writes, against the contract's checks.
use mathlib.Core.Path.{subst}
use ponshot.Base.Int.{ℤ}
use ponshot.Base.Text.{Text}
use ponshot.Base.{
  some_inj, sym, ap, ℕ, ◌+◌, ◌≤◌, ◌<◌, ◌≡◌, refl, Bool, true, false, Bool-cases, Option-cases,
  Option, none, some, inl, inr, arith, ltb, leb, ◌==◌, if◌then◌else◌, not, sym, ◌&&◌,
}
use ponshot.Market.Entry.{Rules, Refusal, stake_refusal, enter_refusal, phase_of}
use ponshot.Sdk.Types.{Round, BetInfo, Phase, RoundStatus}
use ponshot.Web.Entry.{
  is_expired, Modal, Entering, parsed, problem, value_problem, submit, panel_enabled, quick_enabled,
  is_open_phase,
}

-- The modal shows the limits of the contract.
pub record IsCurrent (rules : Rules) (m : Modal) : Type 0 where
  pub same_minimum : m.minimum_bet ≡ rules.minimum_bet
  pub same_maximum : m.maximum_bet ≡ rules.maximum_bet
  pub same_pool : m.maximum_round_pool ≡ rules.maximum_round_pool

limits :
    (m : Modal) (v : ℕ)
    → value_problem m v ≡ none
    → (ltb v m.minimum_bet ≡ false)
      × ((not (m.maximum_bet == 0) && ltb m.maximum_bet v) ≡ false)
      × ((not (m.maximum_round_pool == 0) && ltb m.maximum_round_pool (m.round.total_amount + v))
          ≡ false)
limits m v e = (ground (arith, e), ground (arith, e), ground (arith, e))

-- A value without a problem is refused only for an earlier bet.
value_fits :
    (rules : Rules) (m : Modal) (bet : BetInfo) (v : ℕ)
    → IsCurrent rules m
    → value_problem m v ≡ none
    → stake_refusal rules m.round bet v
      ≡ (if bet.amount == 0 then none else some Refusal.already_entered)
value_fits rules m bet v c e =
    let (low, high, pool) = limits m v e in
    rw (stake_refusal, sym c.same_minimum, sym c.same_maximum, sym c.same_pool, low, high, pool)
      (ground arith)

-- An open phase is an open round before its lock.
open_round_lem :
    (cancellable : Bool) (now : ℕ) (r : Round)
    → is_open_phase (phase_of cancellable now r) ≡ true
    → (r.status ≡ RoundStatus.open_round) × (now < r.lock_timestamp)
unfolding phase_of
open_round_lem cancellable now r e = ground (arith, e)

problem_value :
    (parse_ether : Text → Option ℤ) (m : Modal) (v : ℕ)
    → parsed parse_ether m.amount ≡ some v
    → problem parse_ether m ≡ none
    → value_problem m v ≡ none
unfolding problem
problem_value parse_ether m v good e = elim (Option-cases m.address) [
  | inl away ↦ grind (arith, rw (problem, away) at e)
  | inr (account, here) ↦ elim (Bool-cases (is_expired m.round.lock_timestamp m.clock)) [
    | inl over ↦ grind (arith, rw (problem, here, over) at e)
    | inr early ↦ rw (problem, here, early, good) at e
  ]
]

submit_value :
    (parse_ether : Text → Option ℤ) (m : Modal) (x : Entering)
    → submit parse_ether m ≡ some x
    → (value_problem m x.value ≡ none) × (x.epoch ≡ m.round.epoch) × (x.bull ≡ m.bull)
unfolding submit problem
submit_value parse_ether m x e = elim (Option-cases (parsed parse_ether m.amount)) [
  | inl bad ↦ grind (arith, rw (submit, bad) at e)
  | inr (v, good) ↦ elim (Option-cases (problem parse_ether m)) [
    | inl fine ↦
        let same = some_inj (rw (submit, good, fine) at e) in
        (
          subst (λ y. value_problem m y.value ≡ none) same
              (problem_value parse_ether m v good fine),
          sym (ap (λ y. y.epoch) same),
          sym (ap (λ y. y.bull) same),
        )
    | inr (p, shown) ↦ grind (arith, rw (submit, good, shown) at e)
  ]
]

quick_open :
    (paused : Bool) (phase : Phase)
    → quick_enabled paused phase ≡ true
    → (paused ≡ false) × (is_open_phase phase ≡ true)
quick_open true phase e = grind (arith, e)
quick_open false phase e = elim (Bool-cases (is_open_phase phase)) [
  | inl open_now ↦ (refl, open_now)
  | inr shut ↦ grind (arith, rw (quick_enabled, shut) at e)
]

panel_lem :
    (paused : Bool) (phase : Phase) (bet : BetInfo)
    → quick_enabled paused phase ≡ true
    → panel_enabled paused phase bet ≡ (bet.amount == 0)
panel_lem paused phase bet e =
    let (awake, open_now) = quick_open paused phase e in
    rw (panel_enabled, awake, open_now) (ground arith)

-- If the modal shows the contract's limits, the round has started, and the row of quick stakes is open
-- for the pause and the phase that the contract reports at that time, then a call that the modal
-- writes is for its round, and the contract takes it if the panel's buttons are open too, and refuses
-- it for the wallet's earlier bet in the round if they are not.
pub submit-enter_refusal :
    (parse_ether : Text → Option ℤ) (rules : Rules) (cancellable : Bool) (now : ℕ) (m : Modal)
    (bet : BetInfo) (x : Entering)
    → IsCurrent rules m
    → m.round.start_timestamp ≤ now
    → quick_enabled rules.paused (phase_of cancellable now m.round) ≡ true
    → submit parse_ether m ≡ some x
    → (x.epoch ≡ m.round.epoch)
      × (enter_refusal rules now m.round bet x.value ≡ (
          if panel_enabled rules.paused (phase_of cancellable now m.round) bet
          then none
          else some Refusal.already_entered))
unfolding enter_refusal
submit-enter_refusal parse_ether rules cancellable now m bet x c started quick e =
    let (awake, open_now) = quick_open rules.paused (phase_of cancellable now m.round) quick in
    let (is_open, early) = open_round_lem cancellable now m.round open_now in
    let (fits, same, side) = submit_value parse_ether m x e in
    let before : leb m.round.lock_timestamp now ≡ false = ground arith in
    let after : ltb now m.round.start_timestamp ≡ false = ground arith in
    (
      same,
      rw
          (
            panel_lem rules.paused (phase_of cancellable now m.round) bet quick,
            enter_refusal,
            awake,
            is_open,
            before,
            after,
          )
          (value_fits rules m bet x.value c fits),
    )
