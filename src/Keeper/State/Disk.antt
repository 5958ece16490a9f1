-- ===== src/Keeper/State/Disk.antt =====
-- `StateStore.load` and `flush` of apps/keeper/src/state.ts, with the file that they share. A fault
-- is where a flush stops, by an exception or by a crash of the process.
use ponshot.Base.{ℕ, ◌≡◌, refl, Option, none, some, List, [], ◌∷◌}
use ponshot.Keeper.State.{KeeperState, SentTx, Totals, empty_state}

-- The fields of the JSON object in the file. One that an older version did not write is absent.
pub record SavedState : Type 0 where
  pub last_seen_epoch : Option ℕ
  pub last_successful_tick_at : Option ℕ
  pub last_execution_at : Option ℕ
  pub handled : Option (List (ℕ × ℕ))
  pub recent_txs : Option (List SentTx)
  pub totals : Option Totals
  pub gas_spent_wei : Option ℕ
  pub max_tx_cost_wei : Option ℕ

-- A file that cannot be read or does not parse is `broken`.
pub data Contents : Type 0 where
  broken : Contents
  saved : SavedState → Contents

pub record Disk : Type 0 where
  pub file : Option Contents
  pub tmp : Option Contents

abbrev or_default {ℓ} : {A : Type ℓ} → Option A → A → A
or_default none d = d
or_default (some a) d = a

-- `{...EMPTY, ...parsed}`
abbrev merge : SavedState → KeeperState
merge p = record {
  last_seen_epoch = or_default p.last_seen_epoch empty_state.last_seen_epoch;
  last_successful_tick_at = p.last_successful_tick_at;
  last_execution_at = p.last_execution_at;
  handled = or_default p.handled empty_state.handled;
  recent_txs = or_default p.recent_txs empty_state.recent_txs;
  totals = or_default p.totals empty_state.totals;
  gas_spent_wei = or_default p.gas_spent_wei empty_state.gas_spent_wei;
  max_tx_cost_wei = or_default p.max_tx_cost_wei empty_state.max_tx_cost_wei;
}

-- `JSON.stringify(this.state)`, which leaves out the fields that are undefined.
abbrev serialise : KeeperState → SavedState
serialise s = record {
  last_seen_epoch = some s.last_seen_epoch;
  last_successful_tick_at = s.last_successful_tick_at;
  last_execution_at = s.last_execution_at;
  handled = some s.handled;
  recent_txs = some s.recent_txs;
  totals = some s.totals;
  gas_spent_wei = some s.gas_spent_wei;
  max_tx_cost_wei = some s.max_tx_cost_wei;
}

-- The state after `load`, from the state in memory and the file.
load_from : KeeperState → Option Contents → KeeperState
load_from current none = current
load_from current (some broken) = empty_state
load_from current (some (saved p)) = merge p

unfoldable pub load : KeeperState → Disk → KeeperState
unfolding load_from
load current d = load_from current d.file

pub data Fault : Type 0 where
  none_at_all at_mkdir before_write during_write at_rename : Fault

unfoldable pub flush : Fault → KeeperState → Disk → Disk
flush at_mkdir s d = d
flush before_write s d = d
flush during_write s d = record d { tmp = some broken }
flush at_rename s d = record d { tmp = some (saved (serialise s)) }
flush none_at_all s d = record { file = some (saved (serialise s)); tmp = none }

pub flush_all : List (Fault × KeeperState) → Disk → Disk
flush_all [] d = d
flush_all ((f, s) ∷ rest) d = flush_all rest (flush f s d)

-- The last state whose flush went through.
abbrev pub last_saved : List (Fault × KeeperState) → KeeperState → KeeperState
last_saved [] s = s
last_saved ((none_at_all, s) ∷ rest) _ = last_saved rest s
last_saved ((at_mkdir, s) ∷ rest) old = last_saved rest old
last_saved ((before_write, s) ∷ rest) old = last_saved rest old
last_saved ((during_write, s) ∷ rest) old = last_saved rest old
last_saved ((at_rename, s) ∷ rest) old = last_saved rest old

-- After any sequence of flushes, each of which may stop anywhere, a restart loads the whole of the
-- last state whose flush went through; if none did, what it would have loaded before.
pub load-flush_all :
    (history : List (Fault × KeeperState)) (current : KeeperState) (d : Disk)
    → load current (flush_all history d) ≡ last_saved history (load current d)
unfolding load flush flush_all
load-flush_all [] current d = refl
load-flush_all ((none_at_all, s) ∷ rest) current d =
    load-flush_all rest current (flush none_at_all s d)
load-flush_all ((at_mkdir, s) ∷ rest) current d = load-flush_all rest current d
load-flush_all ((before_write, s) ∷ rest) current d = load-flush_all rest current d
load-flush_all ((during_write, s) ∷ rest) current d =
    load-flush_all rest current (flush during_write s d)
load-flush_all ((at_rename, s) ∷ rest) current d = load-flush_all rest current (flush at_rename s d)
