-- ===== src/Api/Burn.antt =====
-- `/burn` of apps/api/src/index.ts: what has been bought and burned, and what is queued. Numbers
-- stand for their texts. What the contracts answer is a parameter, `none` where a call fails.
use ponshot.Api.Live.{bind}
use ponshot.Api.Sql.{where_rows, group_by}
use ponshot.Base.{ℕ, ◌+◌, ◌==◌, Bool, not, Option, none, some, List, [], ◌∷◌, map, length}
use ponshot.Indexer.Store.{BurnRow}
use ponshot.Indexer.Table.{both}
use Prim.Native.Nat.{max}

pub record BurnGroup : Type 0 where
  pub target_index : ℕ
  pub token : ℕ
  pub burns : ℕ
  pub eth_spent : ℕ
  pub tokens_burned : ℕ
  pub last_burn_at : Option ℕ

unfoldable pub sum_burns : (BurnRow → ℕ) → List BurnRow → ℕ
sum_burns column [] = 0
sum_burns column (r ∷ rs) = column r + sum_burns column rs

-- `MAX(block_time)`, which passes over null times.
unfoldable pub last_time : List BurnRow → Option ℕ
last_time [] = none
last_time (r ∷ rs) = both max r.block_time (last_time rs)

abbrev pub burn_group : ℕ → (ℕ × List BurnRow) → BurnGroup
burn_group index (token, rs) = record {
  target_index = index;
  token = token;
  burns = length rs;
  eth_spent = sum_burns (λ r. r.eth_in) rs;
  tokens_burned = sum_burns (λ r. r.burned) rs;
  last_burn_at = last_time rs;
}

-- The groups of one target, a group for each token, of which the handler takes the first.
unfoldable pub groups_of : ℕ → List BurnRow → List BurnGroup
unfolding where_rows group_by sum_burns last_time
groups_of index table =
    map (burn_group index)
      (group_by (λ r. r.token) (where_rows (λ r. r.target_index == index) table))

-- What `target` gives.
pub record TargetConfig : Type 0 where
  pub token : ℕ
  pub pool : ℕ
  pub share_bps : ℕ

pub record BurnReads : Type 0 where
  pub fee_booked : Option ℕ
  pub allocated : ℕ → Option ℕ
  pub target : ℕ → Option TargetConfig

pub record Target : Type 0 where
  pub index : ℕ
  pub token : ℕ
  pub pool : ℕ
  pub share_bps : ℕ
  pub configured : Bool
  pub allocated : ℕ
  pub burns : ℕ
  pub eth_spent : ℕ
  pub tokens_burned : ℕ
  pub last_burn_at : Option ℕ

pub data BurnAnswer : Type 0 where
  unconfigured : BurnAnswer
  burned : (burner pending : ℕ) (pons project : Target) → BurnAnswer

-- A target, with nothing burned if it has no group.
abbrev pub target_of : ℕ → TargetConfig → ℕ → List BurnGroup → Target
target_of index t allocated [] = record {
  index = index;
  token = t.token;
  pool = t.pool;
  share_bps = t.share_bps;
  configured = not (t.token == 0);
  allocated = allocated;
  burns = 0;
  eth_spent = 0;
  tokens_burned = 0;
  last_burn_at = none;
}
target_of index t allocated (g ∷ gs) = record {
  index = index;
  token = t.token;
  pool = t.pool;
  share_bps = t.share_bps;
  configured = not (t.token == 0);
  allocated = allocated;
  burns = g.burns;
  eth_spent = g.eth_spent;
  tokens_burned = g.tokens_burned;
  last_burn_at = g.last_burn_at;
}

abbrev pub read_burn : ℕ → BurnReads → List BurnRow → Option BurnAnswer
read_burn burner read table = bind read.fee_booked λ pending.
    bind (read.allocated 0) λ allocated_pons. bind (read.allocated 1) λ allocated_project.
      bind (read.target 0) λ pons. bind (read.target 1) λ project. some (
        BurnAnswer.burned burner pending (target_of 0 pons allocated_pons (groups_of 0 table))
          (target_of 1 project allocated_project (groups_of 1 table)))

-- `/burn`, with the burner of the deployment.
unfoldable pub burn : (burner : Option ℕ) → BurnReads → List BurnRow → Option BurnAnswer
unfolding groups_of
burn none read table = some BurnAnswer.unconfigured
burn (some burner) read table = read_burn burner read table
