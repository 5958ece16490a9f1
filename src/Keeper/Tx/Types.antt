-- ===== src/Keeper/Tx/Types.antt =====
-- The types of apps/keeper/src/tx.ts, and of what the network answers to it.
use ponshot.Base.{refl, ℕ, Bool, Option, List, ◌≡◌, ◌⊎◌, inl, inr}
use ponshot.Base.Text.{Text}
use ponshot.Keeper.State.{Action, KeeperState}
use ponshot.Keeper.Reason.{Caught}

pub data Reply {ℓ} (A : Type ℓ) : Type ℓ where
  ok : A → Reply A
  thrown : Caught → Reply A

pub record FeeSettings : Type 0 where
  pub max_fee_per_gas : Option ℕ
  pub max_priority_fee_per_gas : Option ℕ

pub record Receipt : Type 0 where
  pub success : Bool
  pub gas_used : ℕ
  pub effective_gas_price : Option ℕ

pub record TxSenderOptions : Type 0 where
  pub bump_percent : ℕ
  pub max_attempts : ℕ
  pub min_balance_wei : ℕ
  pub dry_run : Bool

pub record SendArgs : Type 0 where
  pub action : Action
  pub epoch : Option ℕ

-- The answers before the loop: the balance, the simulation, and, if the loop is reached, the
-- transaction count (asked for only if no nonce is cached) and the fee estimate.
pub record Preflight : Type 0 where
  pub balance : Reply ℕ
  pub simulation : Reply (Unit {0})
  pub count : Reply ℕ
  pub fees : Reply FeeSettings

-- The answers in one pass: the gas estimate, the hash of the write, the receipt, the count if the
-- nonce is read again, and two readings of the clock.
pub record PassReplies : Type 0 where
  pub gas : Reply ℕ
  pub hash : Reply ℕ
  pub receipt : Reply Receipt
  pub count : Reply ℕ
  pub submitted_at : ℕ
  pub confirmed_at : ℕ

-- One call of `writeContract`.
pub record Submission : Type 0 where
  pub nonce : ℕ
  pub gas_limit : ℕ
  pub fees : FeeSettings

pub record Sender : Type 0 where
  pub cached_nonce : Option ℕ
  pub state : KeeperState
  pub wire : List Submission

pub data SendStatus : Type 0 where
  confirmed skipped failed : SendStatus

pub data Reason : Type 0 where
  operator_balance_low dry_run reverted max_attempts : Reason
  described : Text → Reason

pub record SendResult : Type 0 where
  pub status : SendStatus
  pub hash : Option ℕ
  pub reason : Option Reason
  pub attempts : ℕ

-- How a call of `send` ends: with a result, or by an exception that it does not catch.
pub data SendOutcome : Type 0 where
  returned : SendResult → SendOutcome
  threw : Caught → SendOutcome

pub data Next : Type 0 where
  stop : SendOutcome → Sender → Next
  again : ℕ → FeeSettings → Sender → Next

pub Reply-cases {ℓ} :
    {A : Type ℓ} (r : Reply A) → ((a : A) × (r ≡ ok a)) ⊎ ((e : Caught) × (r ≡ thrown e))
Reply-cases (ok a) = inl (a, refl)
Reply-cases (thrown e) = inr (e, refl)

pub SendOutcome-cases :
    (o : SendOutcome) → ((r : SendResult) × (o ≡ returned r)) ⊎ ((e : Caught) × (o ≡ threw e))
SendOutcome-cases (returned r) = inl (r, refl)
SendOutcome-cases (threw e) = inr (e, refl)
