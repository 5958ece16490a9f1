-- ===== src/Indexer/Engine/Sync.antt =====
-- The cursor in memory, and how far a tick moves it.
use ponshot.Base.{ℕ, ◌≡◌, inl, inr, Option, none, some, List, [], ◌∷◌, arith, Bool-cases, ltb}
use ponshot.Indexer.Engine.{
  Cursor, IndexerConfig, Engine, Chain, safe_head, see_head, check_for_reorg, index_range, advance,
  tick, tick_at, follow, boot, after_batch,
}

-- The stored cursor, where there is one, is the one in memory.
abbrev pub SameBlock : Option Cursor → ℕ → Type 0
SameBlock none n = Unit
SameBlock (some c) n = c.next_block ≡ n

abbrev pub InStep : Engine → Type 0
InStep e = SameBlock e.cursor e.next_block

check_for_reorg-InStep :
    (cfg : IndexerConfig) (ch : Chain) (e : Engine) → InStep e → InStep (check_for_reorg cfg ch e)
unfolding check_for_reorg
check_for_reorg-InStep cfg ch e h = ground arith

write_batch-InStep :
    (cfg : IndexerConfig) (ch : Chain) (safe from to : ℕ) (e : Engine)
    → InStep e
    → InStep (after_batch safe e (index_range ch from to e)).1
unfolding index_range
write_batch-InStep cfg ch safe from to e h = ground arith

advance-InStep :
    (cfg : IndexerConfig) (ch : Chain) (safe : ℕ) (e : Engine)
    → InStep e
    → InStep (advance cfg ch safe e).1
unfolding advance
advance-InStep cfg ch safe e h = elim (Bool-cases (ltb safe e.next_block)) [
  | inl idle ↦ rw (advance, idle) h
  | inr due ↦
      rw (advance, due)
        (write_batch-InStep cfg ch safe _ _ (check_for_reorg cfg ch e)
          (check_for_reorg-InStep cfg ch e h))
]

see_head-InStep :
    (cfg : IndexerConfig) (head : ℕ) (e : Engine) → InStep e → InStep (see_head cfg head e)
see_head-InStep cfg head e h = ground arith

tick_at-InStep :
    (cfg : IndexerConfig) (ch : Chain) (head : Option ℕ) (e : Engine)
    → InStep e
    → InStep (tick_at cfg ch head e).1
tick_at-InStep cfg ch none e h = h
tick_at-InStep cfg ch (some head) e h =
    advance-InStep cfg ch (safe_head cfg head) (see_head cfg head e) (see_head-InStep cfg head e h)

follow-InStep :
    (cfg : IndexerConfig) (chains : List Chain) (e : Engine)
    → InStep e
    → InStep (follow cfg chains e)
unfolding follow tick
follow-InStep cfg [] e h = h
follow-InStep cfg (ch ∷ rest) e h =
    follow-InStep cfg rest (tick cfg ch e).1 (tick_at-InStep cfg ch ch.head e h)

boot-InStep :
    (cfg : IndexerConfig) (anchor : Option ℕ) (e e' : Engine)
    → boot cfg anchor e ≡ some e'
    → InStep e'
unfolding boot
boot-InStep cfg anchor e e' h = ground arith

-- After `start` and any ticks, failed batches and rewinds included, the cursor that the database
-- holds, if it holds one, is the one in memory.
pub follow-boot-InStep :
    (cfg : IndexerConfig) (anchor : Option ℕ) (chains : List Chain) (e e' : Engine)
    → boot cfg anchor e ≡ some e'
    → InStep (follow cfg chains e')
follow-boot-InStep cfg anchor chains e e' h =
    follow-InStep cfg chains e' (boot-InStep cfg anchor e e' h)
