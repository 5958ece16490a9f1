-- ===== src/Indexer/Engine/Advance.antt =====
-- How far a tick moves the cursor.
use ponshot.Base.{
  map, ap, ℕ, ◌+◌, ◌≤◌, ◌<◌, ◌≡◌, ◌⊎◌, refl, inl, inr, some, List, arith, true, false, Bool-cases,
  ltb,
}
use ponshot.Indexer.Store.{DecodedLog}
use ponshot.Indexer.Engine.{
  tick_at, IndexerConfig, Engine, Chain, safe_head, see_head, check_for_reorg, index_range, advance,
  tick, batch_end, after_batch, commit, with_sender,
}
use ponshot.Indexer.Engine.Sync.{InStep}

pub check_for_reorg-le :
    (cfg : IndexerConfig) (ch : Chain) (e : Engine)
    → InStep e
    → (check_for_reorg cfg ch e).next_block ≤ e.next_block
unfolding check_for_reorg
check_for_reorg-le cfg ch e h = ground arith

pub batch_end-le : (cfg : IndexerConfig) (safe from : ℕ) → batch_end cfg safe from ≤ safe
batch_end-le cfg safe from = ground arith

pub batch_end-ge :
    (cfg : IndexerConfig) (safe from : ℕ)
    → from ≤ safe
    → 0 < cfg.batch_size
    → from ≤ batch_end cfg safe from
batch_end-ge cfg safe from due b = ground arith

pub batch_end-lt :
    (cfg : IndexerConfig) (safe from : ℕ)
    → 0 < cfg.batch_size
    → batch_end cfg safe from < from + cfg.batch_size
batch_end-lt cfg safe from b = ground arith

after_batch-le :
    (ch : Chain) (safe from to : ℕ) (e : Engine)
    → to ≤ safe
    → ((after_batch safe e (index_range ch from to e)).1.next_block ≤ safe + 1)
      ⊎ ((after_batch safe e (index_range ch from to e)).1.next_block ≤ e.next_block)
unfolding index_range
after_batch-le ch safe from to e h = ground arith

-- The cursor is within the safe head, or no further than it was.
abbrev pub Within : ℕ → Engine → Engine → Type 0
Within safe e e' = (e'.next_block ≤ safe + 1) ⊎ (e'.next_block ≤ e.next_block)

advance-Within :
    (cfg : IndexerConfig) (ch : Chain) (safe : ℕ) (e : Engine)
    → InStep e
    → Within safe e (advance cfg ch safe e).1
unfolding advance
advance-Within cfg ch safe e h = elim (Bool-cases (ltb safe e.next_block)) [
  | inl idle ↦ rw (advance, idle) (inr (omega arith))
  | inr due ↦
      let checked = check_for_reorg cfg ch e in
      let to = batch_end cfg safe checked.next_block in
      rw (advance, due)
        (elim (after_batch-le ch safe checked.next_block to checked
          (batch_end-le cfg safe checked.next_block)) [
            | inl le ↦ inl le
            | inr le ↦ inr (omega (arith, check_for_reorg-le cfg ch e h))
          ])
]

-- A tick indexes no block nearer to the head than the confirmations: its cursor ends within the
-- safe head, or no further than it was before the tick, or than where a discarded read model
-- starts over.
pub tick-Within :
    (cfg : IndexerConfig) (ch : Chain) (head : ℕ) (e : Engine)
    → ch.head ≡ some head
    → InStep e
    → Within (safe_head cfg head) (see_head cfg head e) (tick cfg ch e).1
unfolding tick
tick-Within cfg ch head e eq h =
    rw (tick, eq) (advance-Within cfg ch (safe_head cfg head) (see_head cfg head e) (ground arith))

pub see_head-next :
    (cfg : IndexerConfig) (head : ℕ) (e : Engine)
    → e.next_block ≤ safe_head cfg head + 1
    → see_head cfg head e ≡ record e { head_block = head }
see_head-next cfg head e due = ground arith

module _ (cfg : IndexerConfig) (ch : Chain) (safe : ℕ) (e : Engine) {logs : List DecodedLog}
    {hash : ℕ} (l : ch.logs e.next_block (batch_end cfg safe e.next_block) ≡ some logs)
    (t : ch.tip_hash (batch_end cfg safe e.next_block) ≡ some hash) (c : ch.commits ≡ true) where
  index_range-commit :
      index_range ch e.next_block (batch_end cfg safe e.next_block) e
      ≡ some (commit (batch_end cfg safe e.next_block) (map (with_sender ch.senders) logs) hash e)
  unfolding index_range
  index_range-commit = rw (index_range, l, t, c) refl

  pub advance-commit :
      e.next_block ≤ safe
      → check_for_reorg cfg ch e ≡ e
      → ((advance cfg ch safe e).0 ≡ false)
        × ((advance cfg ch safe e).1.next_block ≡ batch_end cfg safe e.next_block + 1)
  unfolding advance
  advance-commit due calm = elim (Bool-cases (ltb safe e.next_block)) [
    | inl idle ↦ absurd (ground arith)
    | inr more ↦ rw (advance, more, calm, index_range-commit) (refl, refl)
  ]

pub tick_seen :
    (cfg : IndexerConfig) (ch : Chain) (head : ℕ) (e : Engine)
    → ch.head ≡ some head
    → tick cfg ch e ≡ advance cfg ch (safe_head cfg head) (see_head cfg head e)
unfolding tick
tick_seen cfg ch head e eq = ap (λ h. tick_at cfg ch h e) eq

-- A tick that finds blocks to index, no reorganisation, and every answer it asks for, moves the
-- cursor forward by one block at least and by a batch at most, and does not throw.
pub tick_progress :
    (cfg : IndexerConfig) (ch : Chain) (head hash : ℕ) (logs : List DecodedLog) (e : Engine)
    → ch.head ≡ some head
    → e.next_block ≤ safe_head cfg head
    → check_for_reorg cfg ch (see_head cfg head e) ≡ see_head cfg head e
    → ch.logs e.next_block (batch_end cfg (safe_head cfg head) e.next_block) ≡ some logs
    → ch.tip_hash (batch_end cfg (safe_head cfg head) e.next_block) ≡ some hash
    → ch.commits ≡ true
    → 0 < cfg.batch_size
    → let end = tick cfg ch e in
      (end.0 ≡ false)
      × (e.next_block < end.1.next_block)
      × (end.1.next_block ≤ e.next_block + cfg.batch_size)
tick_progress cfg ch head hash logs e eq due calm l t c b =
    let safe = safe_head cfg head in
    let seen = see_head-next cfg head e (omega arith) in
    let done =
      advance-commit cfg ch safe (record e { head_block = head }) l t c due (rw seen at calm) in
    rw (tick_seen cfg ch head e eq, seen)
      (
        done.0,
        omega (arith, done.1, batch_end-ge cfg safe e.next_block due b),
        omega (arith, done.1, batch_end-lt cfg safe e.next_block b),
      )
