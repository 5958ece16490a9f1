-- ===== src/Keeper/State.antt =====
-- apps/keeper/src/state.ts: the keeper's durable state. Times are opaque numbers, a hash is a
-- number, and the decimal strings of wei amounts are the numbers that they spell. The only keys
-- that the keeper marks are `cancel:<epoch>`; a key is represented by its epoch.
pub mod Bounds
pub mod Disk
use ponshot.Base.{
  ℕ, ◌+◌, ◌-◌, Bool, true, false, Option, none, some, List, [], ◌∷◌, ◌++◌, ltb, ◌==◌, if◌then◌else◌,
  length, drop, slice_last,
}

-- What the keeper asks the contracts to do; `buyAndBurn:<index>` carries its index.
pub data Action : Type 0 where
  execute_round cancel_round lock_round settle_round sweep_to_burner : Action
  buy_and_burn : ℕ → Action

pub data TxStatus : Type 0 where
  pending confirmed replaced failed : TxStatus

pub record SentTx : Type 0 where
  pub hash : ℕ
  pub action : Action
  pub epoch : Option ℕ
  pub nonce : ℕ
  pub submitted_at : ℕ
  pub confirmed_at : Option ℕ
  pub status : Option TxStatus

pub record Totals : Type 0 where
  pub sent : ℕ
  pub confirmed : ℕ
  pub failed : ℕ
  pub replaced : ℕ

pub record KeeperState : Type 0 where
  pub last_seen_epoch : ℕ
  pub last_successful_tick_at : Option ℕ
  pub last_execution_at : Option ℕ
  pub handled : List (ℕ × ℕ)
  pub recent_txs : List SentTx
  pub totals : Totals
  pub gas_spent_wei : ℕ
  pub max_tx_cost_wei : ℕ

abbrev pub empty_state : KeeperState
empty_state = record {
  last_seen_epoch = 0;
  last_successful_tick_at = none;
  last_execution_at = none;
  handled = [];
  recent_txs = [];
  totals = record { sent = 0; confirmed = 0; failed = 0; replaced = 0 };
  gas_spent_wei = 0;
  max_tx_cost_wei = 0;
}

abbrev pub recent_limit : ℕ
recent_limit = 100

abbrev pub handled_limit : ℕ
handled_limit = 500

-- `StateStore.update`, on the state in memory; `flush` is in State/Disk.
unfoldable pub update : (KeeperState → KeeperState) → KeeperState → KeeperState
update fn s = let t = fn s in record t { recent_txs = slice_last recent_limit t.recent_txs }

-- A JavaScript object keeps the place of a key that it has, and puts a new one last.
pub assign : ℕ → ℕ → List (ℕ × ℕ) → List (ℕ × ℕ)
assign k v [] = (k, v) ∷ []
assign k v ((j, w) ∷ m) = if j == k then (j, v) ∷ m else (j, w) ∷ assign k v m

pub has_key : ℕ → List (ℕ × ℕ) → Bool
has_key k [] = false
has_key k ((j, w) ∷ m) = if j == k then true else has_key k m

-- The deletion of the oldest keys.
pub prune : List (ℕ × ℕ) → List (ℕ × ℕ)
prune m = if ltb handled_limit (length m) then drop (length m - handled_limit) m else m

abbrev pub remember : ℕ → ℕ → KeeperState → KeeperState
remember key now s = record s { handled = prune (assign key now s.handled) }

unfoldable pub mark_handled : ℕ → ℕ → KeeperState → KeeperState
unfolding update assign prune
mark_handled key now = update (remember key now)

unfoldable pub is_handled : ℕ → KeeperState → Bool
unfolding has_key
is_handled key s = has_key key s.handled
