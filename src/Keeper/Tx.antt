-- ===== src/Keeper/Tx.antt =====
-- apps/keeper/src/tx.ts: `TxSender.send`. What viem, the wallet and the chain answer is given as
-- replies, one record for the calls before the loop and one for each pass; a reply is a value or a
-- thrown error. `wire` lists the transactions that the wallet was asked to write.
mod Types
pub use Types.*
pub mod Rules
pub mod Pass
pub mod Nonce
pub mod Accounts
pub mod Fees
pub mod Limits
use ponshot.Base.{
  ℕ, zero, suc, ◌+◌, ◌*◌, ◌/◌, Option, none, some, List, [], ◌∷◌, ◌++◌, ltb, ◌==◌, if◌then◌else◌,
}
use ponshot.Keeper.State.{TxStatus, SentTx, KeeperState, update}
use ponshot.Keeper.Reason.{Caught, describe_revert, is_benign, is_conflict}

abbrev pub or_zero : Option ℕ → ℕ
or_zero none = 0
or_zero (some n) = n

abbrev pub scale_fee : ℕ → Option ℕ → Option ℕ
scale_fee percent none = none
scale_fee percent (some v) = some (v * (100 + percent) / 100)

unfoldable pub bump_fees : FeeSettings → ℕ → FeeSettings
bump_fees fees percent = record {
  max_fee_per_gas = scale_fee percent fees.max_fee_per_gas;
  max_priority_fee_per_gas = scale_fee percent fees.max_priority_fee_per_gas;
}

abbrev pub gas_allowance : ℕ → ℕ
gas_allowance gas = gas * 130 / 100

-- What the first state update of a pass writes.
abbrev submit : SendArgs → ℕ → ℕ → ℕ → FeeSettings → ℕ → KeeperState → KeeperState
submit args now nonce gas fees hash s =
    let required = gas_allowance gas * or_zero fees.max_fee_per_gas in
    record s {
      max_tx_cost_wei = if ltb s.max_tx_cost_wei required then required else s.max_tx_cost_wei;
      totals = record s.totals { sent = s.totals.sent + 1 };
      recent_txs =
          s.recent_txs
          ++ record {
            hash = hash;
            action = args.action;
            epoch = args.epoch;
            nonce = nonce;
            submitted_at = now;
            confirmed_at = none;
            status = some TxStatus.pending;
          }
            ∷ [];
    }

-- The change of the first record with the hash, if there is one.
pub mark : ℕ → (SentTx → SentTx) → List SentTx → List SentTx
mark hash change [] = []
mark hash change (t ∷ ts) = if t.hash == hash then change t ∷ ts else t ∷ mark hash change ts

abbrev land : ℕ → Receipt → ℕ → KeeperState → KeeperState
land now receipt hash s =
    let paid = receipt.gas_used * or_zero receipt.effective_gas_price in
    let status = if receipt.success then TxStatus.confirmed else TxStatus.failed in
    record s {
      gas_spent_wei = s.gas_spent_wei + paid;
      totals =
          if receipt.success
          then record s.totals { confirmed = s.totals.confirmed + 1 }
          else record s.totals { failed = s.totals.failed + 1 };
      recent_txs =
          mark hash (λ t. record t { status = some status; confirmed_at = some now }) s.recent_txs;
    }

abbrev replace : ℕ → KeeperState → KeeperState
replace hash s = record s {
  totals = record s.totals { replaced = s.totals.replaced + 1 };
  recent_txs = mark hash (λ t. record t { status = some TxStatus.replaced }) s.recent_txs;
}

abbrev give_up : KeeperState → KeeperState
give_up s = record s { totals = record s.totals { failed = s.totals.failed + 1 } }

abbrev stopped : SendStatus → Option ℕ → Option Reason → ℕ → Sender → Next
stopped status hash reason attempts s =
    stop (returned (record { status = status; hash = hash; reason = reason; attempts = attempts }))
      s

-- The outer `catch` of a pass.
pub on_error : TxSenderOptions → ℕ → Reply ℕ → Caught → ℕ → FeeSettings → Sender → Next
on_error opts attempts count err nonce fees s =
    let reason = describe_revert err in
    let dropped = record s { cached_nonce = none } in
    if is_conflict reason
    then elim count [
      | ok n ↦ again n (bump_fees fees opts.bump_percent) (record s { cached_nonce = some n })
      | thrown e ↦ stop (threw e) dropped
    ]
    else if is_benign reason
    then stopped SendStatus.skipped none (some (described reason)) attempts s
    else again nonce fees dropped

-- From a hash on: the wait for the receipt, and its `catch`.
pub await_receipt : TxSenderOptions → ℕ → PassReplies → ℕ → ℕ → FeeSettings → Sender → Next
unfolding mark
await_receipt opts attempts r hash nonce fees s = elim r.receipt [
  | ok receipt ↦
      let landed = record s {
        cached_nonce = some (nonce + 1);
        state = update (land r.confirmed_at receipt hash) s.state;
      } in
      if receipt.success
      then stopped SendStatus.confirmed (some hash) none attempts landed
      else stopped SendStatus.failed (some hash) (some reverted) attempts landed
  | thrown e ↦
      again nonce (bump_fees fees opts.bump_percent)
        (record s { state = update (replace hash) s.state })
]

-- One pass of the loop, in which `attempts` is already counted up.
unfoldable pub pass : TxSenderOptions → SendArgs → ℕ → PassReplies → ℕ → FeeSettings → Sender → Next
unfolding on_error await_receipt
pass opts args attempts r nonce fees s = elim r.gas [
  | thrown e ↦ on_error opts attempts r.count e nonce fees s
  | ok gas ↦
      let written = record s {
        wire = s.wire ++ record { nonce = nonce; gas_limit = gas_allowance gas; fees = fees } ∷ [];
      } in
      elim r.hash [
        | thrown e ↦ on_error opts attempts r.count e nonce fees written
        | ok hash ↦ await_receipt opts attempts r hash nonce fees (record written {
          state = update (submit args r.submitted_at nonce gas fees hash) s.state;
        })
      ]
]

-- The `while` loop, by the passes that are left; `net` answers the pass of each number.
unfoldable pub send_loop :
    TxSenderOptions
    → SendArgs
    → (ℕ → PassReplies)
    → ℕ
    → ℕ
    → ℕ
    → FeeSettings
    → Sender
    → SendOutcome × Sender
send_loop opts args net zero attempts nonce fees s = (
  returned (record {
    status = SendStatus.failed;
    hash = none;
    reason = some max_attempts;
    attempts = attempts;
  }),
  record s { state = update give_up s.state },
)
send_loop opts args net (suc left) attempts nonce fees s =
    elim (pass opts args (attempts + 1) (net (attempts + 1)) nonce fees s) [
      | stop outcome s' ↦ (outcome, s')
      | again nonce' fees' s' ↦ send_loop opts args net left (attempts + 1) nonce' fees' s'
    ]

-- `nextNonce`: the nonce and the sender that caches it.
unfoldable pub next_nonce : Reply ℕ → Sender → Reply (ℕ × Sender)
next_nonce count s = elim s.cached_nonce [
  | some n ↦ ok (n, s)
  | none ↦ elim count [ ok n ↦ ok (n, record s { cached_nonce = some n }) | thrown e ↦ thrown e ]
]

abbrev pub refused : SendStatus → Reason → Sender → SendOutcome × Sender
refused status reason s =
    (returned (record { status = status; hash = none; reason = some reason; attempts = 0 }), s)

-- From the fee estimate on.
unfoldable pub enter_loop :
    TxSenderOptions
    → SendArgs
    → Reply FeeSettings
    → (ℕ → PassReplies)
    → ℕ
    → Sender
    → SendOutcome × Sender
enter_loop opts args fees net nonce s = elim fees [
  | ok f ↦ send_loop opts args net opts.max_attempts 0 nonce f s
  | thrown e ↦ (threw e, s)
]

-- After the simulation.
unfoldable pub dispatch :
    TxSenderOptions → SendArgs → Preflight → (ℕ → PassReplies) → Sender → SendOutcome × Sender
dispatch opts args pre net s =
    if opts.dry_run then refused SendStatus.skipped dry_run s else elim (next_nonce pre.count s) [
      | ok p ↦ enter_loop opts args pre.fees net p.0 p.1
      | thrown e ↦ (threw e, s)
    ]

-- By the simulation's answer.
unfoldable pub simulate :
    TxSenderOptions
    → SendArgs
    → Preflight
    → (ℕ → PassReplies)
    → Sender
    → Reply (Unit {0})
    → SendOutcome × Sender
simulate opts args pre net s (ok _) = dispatch opts args pre net s
simulate opts args pre net s (thrown e) =
    let reason = describe_revert e in
    refused (if is_benign reason then SendStatus.skipped else SendStatus.failed) (described reason)
      s

-- By the balance's answer.
unfoldable pub check_balance :
    TxSenderOptions
    → SendArgs
    → Preflight
    → (ℕ → PassReplies)
    → Sender
    → Reply ℕ
    → SendOutcome × Sender
check_balance opts args pre net s (ok balance) =
    if ltb balance opts.min_balance_wei
    then refused SendStatus.failed operator_balance_low s
    else simulate opts args pre net s pre.simulation
check_balance opts args pre net s (thrown e) = (threw e, s)

unfoldable pub send :
    TxSenderOptions → SendArgs → Preflight → (ℕ → PassReplies) → Sender → SendOutcome × Sender
send opts args pre net s = check_balance opts args pre net s pre.balance
