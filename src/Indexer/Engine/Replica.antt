-- ===== src/Indexer/Engine/Replica.antt =====
-- The tables as a function of the chain's logs, over ticks, failures and restarts.

use ponshot.Base.{ℕ, ◌<◌, ◌≡◌, ap, ◌∙◌, Option, List}
use ponshot.Indexer.Store.{Store, DecodedLog}
use ponshot.Indexer.Handlers.{apply_logs}
use ponshot.Indexer.Engine.{IndexerConfig, Engine, Chain, tick_at, check_for_reorg}
use ponshot.Indexer.Engine.History.{History, Answers}
use ponshot.Indexer.Engine.Mirror.{IsMirror, calm, tick_at-IsMirror}
use ponshot.Indexer.Engine.Senders.{without_senders}

-- The same logs, senders and all.
abbrev pub SameLogs : List DecodedLog → List DecodedLog → Type 0
SameLogs xs ys = xs ≡ ys

-- The tables are those of the history, up to the cursor.
abbrev pub IsReplica : History → IndexerConfig → Engine → Type 0
IsReplica h cfg e = IsMirror (λ db. db) h cfg e

-- The same, but for the senders of the executions.
abbrev pub IsReplicaButSenders : History → IndexerConfig → Engine → Type 0
IsReplicaButSenders h cfg e = IsMirror without_senders h cfg e

every_table :
    (xs ys : List DecodedLog) (a b : Store)
    → SameLogs xs ys
    → a ≡ b
    → apply_logs xs a ≡ apply_logs ys b
every_table xs ys a b l e = ap (λ evs. apply_logs evs a) l ∙ ap (apply_logs ys) e

-- Nothing that the chain answers looks like a reorganisation.
pub check_for_reorg_calm :
    (h : History) (cfg : IndexerConfig) (ch : Chain) (a : Answers SameLogs h ch) (e : Engine)
    → IsReplica h cfg e
    → check_for_reorg cfg ch e ≡ e
check_for_reorg_calm h cfg ch a e r = calm (λ db. db) SameLogs every_table h cfg ch a e r

pub tick_at-IsReplica :
    (h : History) (cfg : IndexerConfig) (ch : Chain) (a : Answers SameLogs h ch) (head : Option ℕ)
    (e : Engine)
    → 0 < cfg.batch_size
    → IsReplica h cfg e
    → IsReplica h cfg (tick_at cfg ch head e).1
tick_at-IsReplica h cfg ch a head e b r =
    tick_at-IsMirror (λ db. db) SameLogs every_table h cfg ch a head e b r
