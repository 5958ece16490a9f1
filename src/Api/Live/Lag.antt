-- ===== src/Api/Live/Lag.antt =====
-- `/health` against the cursor that the indexer keeps.
use ponshot.Indexer.Engine.History.{History, position}
use ponshot.Api.Live.{health}
use ponshot.Base.Int.{ℤ, ◌-ℤ◌, pos, sub_ℕ, sub_ℕ-pos}
use ponshot.Base.{ℕ, ◌+◌, ◌-◌, ◌*◌, ◌≤◌, ◌<◌, ◌≡◌, ap, ◌∙◌, refl, true, Option, none, some, arith}
use ponshot.Indexer.Engine.{Cursor, IndexerConfig, Engine, Chain, safe_head, follow}
use ponshot.Indexer.Engine.CatchUp.{Quiet, repeat, follow_reach}
use ponshot.Indexer.Engine.Replica.{IsReplica}

-- The column `last_block` of the stored cursor, which is -1 for a cursor at block 0.
abbrev pub last_block : Option Cursor → Option ℤ
last_block none = none
last_block (some c) = some (sub_ℕ c.next_block 1)

lag_of : (head safe : ℕ) → safe ≤ head → pos head -ℤ pos safe ≡ pos (head - safe)
unfolding ◌-ℤ◌
lag_of head safe h = ground arith

safe_head-le : (cfg : IndexerConfig) (head : ℕ) → safe_head cfg head ≤ head
safe_head-le cfg head = ground arith

-- The report on a last block that is not past the head.
health_fine :
    (head safe : ℕ)
    → safe ≤ head
    → let h = health (some (pos safe)) (some head) in
      (h.ok ≡ true) × (h.indexer_lag_blocks ≡ some (pos (head - safe)))
unfolding health
health_fine head safe h = rw (lag_of head safe h) (ground arith, refl)

lag_at :
    (cfg : IndexerConfig) (head next : ℕ) (cursor : Option Cursor)
    → next ≡ safe_head cfg head + 1
    → next ≡ position cfg cursor
    → let h = health (last_block cursor) (some head) in
      (h.ok ≡ true)
      × ((c : Cursor)
          → cursor ≡ some c
          → h.indexer_lag_blocks ≡ some (pos (head - safe_head cfg head)))
unfolding health
lag_at cfg head next none e p =
    (rw (lag_of head 0 (omega arith)) (ground arith), λ c e. grind (arith, e))
lag_at cfg head next (some c) e p =
    let at : sub_ℕ c.next_block 1 ≡ pos (safe_head cfg head) =
      sub_ℕ-pos c.next_block 1 (omega (arith, e, p)) ∙ ap pos (omega (arith, e, p)) in
    let fine = health_fine head (safe_head cfg head) (safe_head-le cfg head) in
    rw at (fine.0, λ c' e'. fine.1)

-- If the tables are those that the chain's logs give up to the cursor, the cursor is not past the
-- safe head, and a batch is of at least one block, then, once the chain stays at a head and answers, after enough ticks of the indexer for
-- its batches to cover what is left, `/health` reports that all is well at that head; and if the
-- indexer has stored a cursor, the lag that it reports is the distance between the head and the safe
-- head.
pub caught_up_health :
    (h : History) (cfg : IndexerConfig) (head : ℕ) (ch : Chain) (n : ℕ) (e : Engine)
    → Quiet h head ch
    → 0 < cfg.batch_size
    → IsReplica h cfg e
    → e.next_block ≤ safe_head cfg head + 1
    → safe_head cfg head + 1 ≤ e.next_block + n * cfg.batch_size
    → let end = follow cfg (repeat n ch) e in
      let report = health (last_block end.cursor) (some head) in
      (report.ok ≡ true)
      × ((c : Cursor)
          → end.cursor ≡ some c
          → report.indexer_lag_blocks ≡ some (pos (head - safe_head cfg head)))
caught_up_health h cfg head ch n e q b r le enough =
    let (kept, reached) = follow_reach h cfg head ch q b n e r le enough in
    lag_at cfg head (follow cfg (repeat n ch) e).next_block (follow cfg (repeat n ch) e).cursor
      reached kept.1
