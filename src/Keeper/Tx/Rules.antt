-- ===== src/Keeper/Tx/Rules.antt =====
-- A rule for what holds of a whole `send`: it ends before its loop with the sender as it was, or it
-- enters the loop with the state as it was, at the nonce that it starts from.
use mathlib.Core.Option.{none}
use ponshot.Keeper.Tx.{
  SendOutcome, Reply, Sender, TxSenderOptions, threw, Reason, Caught, SendArgs, returned, ok,
  refused, Preflight, SendStatus, thrown, PassReplies, described, FeeSettings, describe_revert,
  send_loop, enter_loop, dispatch, next_nonce, simulate, check_balance, send, is_benign,
  operator_balance_low,
}
use ponshot.Base.{refl, ℕ, Option, Bool, ◌≡◌, some, if◌then◌else◌, arith, Bool-cases, inl, inr, ltb}

-- How a call's end shows in the counters.
abbrev pub confirmations : SendOutcome → ℕ
confirmations (threw e) = 0
confirmations (returned r) = elim r.status [ SendStatus.confirmed ↦ 1 | _ ↦ 0 ]

abbrev count_reverted : Option Reason → ℕ
count_reverted (some Reason.reverted) = 1
count_reverted _ = 0

abbrev count_failed : Option Reason → ℕ
count_failed (some Reason.reverted) = 1
count_failed (some Reason.max_attempts) = 1
count_failed _ = 0

abbrev pub reverts : SendOutcome → ℕ
reverts (threw e) = 0
reverts (returned r) = count_reverted r.reason

abbrev pub failures : SendOutcome → ℕ
failures (threw e) = 0
failures (returned r) = count_failed r.reason

-- An end before the loop, which is no confirmation, no revert and no failure that is counted.
abbrev pub Idle : SendOutcome → Type 0
Idle o = (confirmations o ≡ 0) × (reverts o ≡ 0) × (failures o ≡ 0)

-- The nonce that a call starts from.
abbrev pub start_nonce : Reply ℕ → Option ℕ → ℕ
start_nonce count (some n) = n
start_nonce (ok n) none = n
start_nonce (thrown e) none = 0

-- What the sender of the loop has in common with the one that `send` was called on.
abbrev pub Kept : Sender → Sender → Type 0
Kept s s' = (s'.state ≡ s.state) × (s'.wire ≡ s.wire)

refused-Idle :
    (b : Bool) (e : Caught) (s : Sender)
    → Idle
        (refused
          (if b then SendStatus.skipped else SendStatus.failed)
          (described (describe_revert e))
          s).0
refused-Idle b e s = ground arith

module _ (opts : TxSenderOptions) (args : SendArgs) (pre : Preflight) (net : ℕ → PassReplies)
    (s : Sender) (P : SendOutcome × Sender → Type 0)
    (stay : (o : SendOutcome) (s' : Sender) → Kept s s' → Idle o → P (o, s'))
    (go : (f : FeeSettings) (s' : Sender)
      → pre.fees ≡ ok f
      → Kept s s'
      → P (
          send_loop opts args net opts.max_attempts 0
            (start_nonce pre.count s.cached_nonce)
            f
            s')) where
  enter_loop-rule :
      (fees : Reply FeeSettings) (n : ℕ) (s' : Sender)
      → n ≡ start_nonce pre.count s.cached_nonce
      → pre.fees ≡ fees
      → Kept s s'
      → P (enter_loop opts args fees net n s')
  unfolding enter_loop
  enter_loop-rule (ok f) n s' e fe k = rw e (go f s' fe k)
  enter_loop-rule (thrown x) n s' e fe k = stay (threw x) s' k (refl, refl, refl)

  with_nonce-rule :
      (next : Reply (ℕ × Sender))
      → next_nonce pre.count s ≡ next
      → P (elim next [ ok p ↦ enter_loop opts args pre.fees net p.0 p.1 | thrown e ↦ (threw e, s) ])
  unfolding next_nonce
  with_nonce-rule (thrown x) e = stay (threw x) s (refl, refl) (refl, refl, refl)
  with_nonce-rule (ok (n, s')) e =
      enter_loop-rule pre.fees n s' (ground arith) refl (ground arith, ground arith)

  dispatch-rule : P (dispatch opts args pre net s)
  unfolding dispatch
  dispatch-rule = elim (Bool-cases opts.dry_run) [
    | inl dry ↦
        rw dry
          (stay (refused SendStatus.skipped Reason.dry_run s).0 s (refl, refl) (refl, refl, refl))
    | inr live ↦ rw live (with_nonce-rule (next_nonce pre.count s) refl)
  ]

  simulate-rule : (simulation : Reply (Unit {0})) → P (simulate opts args pre net s simulation)
  unfolding simulate
  simulate-rule (ok _) = dispatch-rule
  simulate-rule (thrown e) =
      stay _ s (refl, refl) (refused-Idle (is_benign (describe_revert e)) e s)

  check_balance-rule : (balance : Reply ℕ) → P (check_balance opts args pre net s balance)
  unfolding check_balance
  check_balance-rule (thrown e) = stay (threw e) s (refl, refl) (refl, refl, refl)
  check_balance-rule (ok b) = elim (Bool-cases (ltb b opts.min_balance_wei)) [
    | inl low ↦ rw low (
        stay (refused SendStatus.failed operator_balance_low s).0 s (refl, refl) (refl, refl, refl))
    | inr enough ↦ rw enough (simulate-rule pre.simulation)
  ]

  pub send_rule : P (send opts args pre net s)
  unfolding send
  send_rule = check_balance-rule pre.balance
