-- ===== src/Indexer/Engine/Reorg/Unnoticed.antt =====
-- A rollback that fails.
use ponshot.Base.{map, ℕ, ◌+◌, ◌≤◌, ◌≡◌, refl, true, false, some, List, ltb, ◌==◌, arith}
use ponshot.Indexer.Store.{DecodedLog}
use ponshot.Indexer.Handlers.{apply_logs}
use ponshot.Indexer.Engine.{
  Cursor, IndexerConfig, Engine, Chain, check_for_reorg, check_cursor, compare_hash, index_range,
  advance, tick, safe_head, batch_end, with_sender,
}

stays :
    (cfg : IndexerConfig) (ch : Chain) (c : Cursor) (e : Engine) (stored found : ℕ)
    → e.cursor ≡ some c
    → c.last_block_hash ≡ some stored
    → ch.hash_before c.next_block ≡ some found
    → (found == stored) ≡ false
    → ch.rolls_back ≡ false
    → check_for_reorg cfg ch e ≡ e
unfolding check_for_reorg
stays cfg ch c e stored found cur s g other fails =
    rw (check_for_reorg, cur, check_cursor, s, g, compare_hash, other, fails) refl

agrees :
    (cfg : IndexerConfig) (ch : Chain) (c : Cursor) (e : Engine) (stored : ℕ)
    → e.cursor ≡ some c
    → c.last_block_hash ≡ some stored
    → ch.hash_before c.next_block ≡ some stored
    → check_for_reorg cfg ch e ≡ e
unfolding check_for_reorg
agrees cfg ch c e stored cur s g =
    let same : (stored == stored) ≡ true = ground arith in
    rw (check_for_reorg, cur, check_cursor, s, g, compare_hash, same) refl

-- If a tick finds another hash at its cursor, its rollback fails, and its batch succeeds, then it
-- adds the logs of the batch to the tables as they are, with whatever the orphaned blocks left
-- there, and a later check that reads the hash which this tick stored finds nothing to roll back.
pub tick-check_for_reorg_unnoticed :
    (cfg : IndexerConfig) (ch later : Chain) (c : Cursor) (e : Engine) (head stored found tip : ℕ)
    (logs : List DecodedLog)
    → let to = batch_end cfg (safe_head cfg head) e.next_block in
      e.cursor ≡ some c
      → c.last_block_hash ≡ some stored
      → ch.head ≡ some head
      → e.next_block ≤ safe_head cfg head
      → ch.hash_before c.next_block ≡ some found
      → (found == stored) ≡ false
      → ch.rolls_back ≡ false
      → ch.logs e.next_block to ≡ some logs
      → ch.tip_hash to ≡ some tip
      → ch.commits ≡ true
      → later.hash_before (to + 1) ≡ some tip
      → let after = (tick cfg ch e).1 in
        (after.store ≡ apply_logs (map (with_sender ch.senders) logs) e.store)
        × (check_for_reorg cfg later after ≡ after)
unfolding tick advance index_range
tick-check_for_reorg_unnoticed cfg ch later c e head stored found tip logs cur s at due g other
      fails l t commits later_tip =
    let seen = record e { head_block = head } in
    let ahead : ltb (head + 1) e.next_block ≡ false = ground (arith, due) in
    let past : ltb (safe_head cfg head) e.next_block ≡ false = ground (arith, due) in
    let still = stays cfg ch c seen stored found cur s g other fails in
    rw (tick, at, ahead, advance, past, still, l, t, commits)
      (refl, agrees cfg later _ _ tip refl refl later_tip)
