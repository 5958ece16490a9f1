-- ===== src/Indexer/Engine/Reorg.antt =====
-- An indexer over a reorganisation of the chain that it follows.
pub mod Unnoticed
use ponshot.Base.{
  map, ℕ, zero, suc, ◌+◌, ◌-◌, ◌≤◌, ◌<◌, ◌≡◌, refl, sym, ap, ◌∙◌, false, some, List, ◌∷◌, ◌++◌, All,
  ltb, ◌==◌, arith, true,
}
use mathlib.Core.Option.{none-ne-some}
use ponshot.Base.Every.{append-All, All-map}
use ponshot.Indexer.Store.{DecodedLog}
use ponshot.Indexer.Handlers.{apply_logs, rollback_from}
use ponshot.Indexer.Handlers.Reorg.{Tables, tables}
use ponshot.Indexer.Engine.{
  Cursor, IndexerConfig, Engine, Chain, empty_store, rewind, rewind_to, check_for_reorg, advance,
  tick, safe_head, batch_end, compare_hash, check_cursor,
}
use ponshot.Indexer.Engine.Advance.{batch_end-ge}
use ponshot.Indexer.Engine.History.{
  History, span, span-append, Answers, Event, ticked, live, Faithful,
}
use ponshot.Indexer.Engine.Mirror.{
  IsMirror, Mirrors, blocks_done, index_range-IsMirror, live-IsMirror,
}
use ponshot.Indexer.Engine.Replica.{IsReplicaButSenders}
use ponshot.Indexer.Engine.Senders.{
  ButSenders, without_senders, anonymous, without_senders-rollback_from,
}
use ponshot.Indexer.Engine.Recovery.Logs.{IsFresh}
use ponshot.Indexer.Engine.Recovery.{rollback_undoes, known_tables, known_tables_local}

-- Two histories that part at a block, the first of which has its logs in their blocks.
pub record Fork (h h' : History) (at : ℕ) : Type 0 where
  pub agree : (n : ℕ) → n < at → h.logs_of n ≡ h'.logs_of n
  pub placed : (n : ℕ) → All (λ ev. ev.block_number ≡ n) (h.logs_of n)

module _ (h h' : History) (at : ℕ) (f : Fork h h' at) where
  span_agree : (from n : ℕ) → from + n ≤ at → span h from n ≡ span h' from n
  span_agree from zero le = refl
  span_agree from (suc n) le =
      rw (span_agree from n (omega (arith, le)), f.agree (from + n) (omega (arith, le))) refl

  span_low : (from n b : ℕ) → from + n ≤ b → All (λ ev. ev.block_number < b) (span h from n)
  span_low from zero b le = tt
  span_low from (suc n) b le =
      append-All (λ ev. ev.block_number < b) (span h from n) (h.logs_of (from + n))
        (span_low from n b (omega (arith, le)))
        (All-map (λ ev. ev.block_number ≡ from + n) (λ ev. ev.block_number < b)
          (h.logs_of (from + n)) (λ ev e. omega (arith, e, le)) (f.placed (from + n)))

  span_high : (from n : ℕ) → All (λ ev. from ≤ ev.block_number) (span h from n)
  span_high from zero = tt
  span_high from (suc n) =
      append-All (λ ev. from ≤ ev.block_number) (span h from n) (h.logs_of (from + n))
        (span_high from n)
        (All-map (λ ev. ev.block_number ≡ from + n) (λ ev. from ≤ ev.block_number)
          (h.logs_of (from + n)) (λ ev e. omega (arith, e)) (f.placed (from + n)))

rewind_to-le : (cfg : IndexerConfig) (c : Cursor) → rewind_to cfg c ≤ c.next_block
rewind_to-le cfg c = ground arith

-- The logs of the blocks from a start to the block that a cursor rewinds to, and of those from
-- there to the cursor.
abbrev pub kept_logs : History → IndexerConfig → Cursor → List DecodedLog
kept_logs h cfg c = span h cfg.start_block (rewind_to cfg c - cfg.start_block)

abbrev pub orphaned_logs : History → IndexerConfig → Cursor → List DecodedLog
orphaned_logs h cfg c = span h (rewind_to cfg c) (c.next_block - rewind_to cfg c)

abbrev anonymous_tables : Tables → Tables
anonymous_tables t = record t { executions = map anonymous t.executions }

rewind-IsMirror :
    (h h' : History) (cfg : IndexerConfig) (c : Cursor) (e : Engine)
    → Mirrors without_senders h cfg (some c) e.store
    → cfg.start_block ≤ rewind_to cfg c
    → Fork h h' (rewind_to cfg c)
    → All (IsFresh (tables (apply_logs (kept_logs h cfg c) empty_store))) (orphaned_logs h cfg c)
    → IsMirror known_tables h' cfg (rewind cfg c e)
rewind-IsMirror h h' cfg c e (n, at, rows, hash) behind f fresh =
    let b = rewind_to cfg c in
    let k = b - cfg.start_block in
    let split : n ≡ k + (c.next_block - b) = omega (arith, at, behind, rewind_to-le cfg c) in
    let here : cfg.start_block + k ≡ b = omega (arith, behind) in
    let cut : span h cfg.start_block n ≡ kept_logs h cfg c ++ orphaned_logs h cfg c =
      ap (span h cfg.start_block) split
      ∙ span-append h cfg.start_block k (c.next_block - b)
      ∙ ap (λ x. kept_logs h cfg c ++ span h x (c.next_block - b)) here in
    let whole = apply_logs (kept_logs h cfg c ++ orphaned_logs h cfg c) empty_store in
    let undone : known_tables (rollback_from b e.store)
        ≡ known_tables (apply_logs (kept_logs h cfg c) empty_store) =
      ap tables (without_senders-rollback_from b e.store)
      ∙ ap (λ db. tables (rollback_from b db))
          (rows ∙ ap (λ xs. without_senders (apply_logs xs empty_store)) cut)
      ∙ ap tables (sym (without_senders-rollback_from b whole))
      ∙ ap anonymous_tables (
          rollback_undoes b (kept_logs h cfg c) (orphaned_logs h cfg c)
            (span_low h h' b f cfg.start_block k b (omega (arith, here)))
            (span_high h h' b f b (c.next_block - b)) fresh) in
    (
      (
        k,
        sym here,
        undone
            ∙ ap (λ xs. known_tables (apply_logs xs empty_store))
                (span_agree h h' b f cfg.start_block k (omega (arith, here))),
        λ x e'. absurd (none-ne-some x e'),
      ),
      refl,
    )

check_for_reorg_rewinds :
    (cfg : IndexerConfig) (ch : Chain) (c : Cursor) (e : Engine) (stored found : ℕ)
    → e.cursor ≡ some c
    → c.last_block_hash ≡ some stored
    → ch.hash_before c.next_block ≡ some found
    → (found == stored) ≡ false
    → ch.rolls_back ≡ true
    → check_for_reorg cfg ch e ≡ rewind cfg c e
unfolding check_for_reorg
check_for_reorg_rewinds cfg ch c e stored found cur s g other rolls =
    rw (check_for_reorg, cur, check_cursor, s, g, compare_hash, other, rolls) refl

-- The tick that finds the other chain.
reorg_tick :
    (h h' : History) (cfg : IndexerConfig) (ch : Chain) (safe : ℕ) (c : Cursor) (e : Engine)
    → 0 < cfg.batch_size
    → ltb safe e.next_block ≡ false
    → rewind_to cfg c ≤ safe
    → check_for_reorg cfg ch e ≡ rewind cfg c e
    → IsMirror known_tables h' cfg (rewind cfg c e)
    → Answers ButSenders h' ch
    → IsMirror known_tables h' cfg (advance cfg ch safe e).1
unfolding advance
reorg_tick h h' cfg ch safe c e b due le found m a =
    let back = rewind cfg c e in
    let to = batch_end cfg safe back.next_block in
    let ge : back.next_block ≤ to = batch_end-ge cfg safe back.next_block le b in
    rw (advance, due, found)
      (index_range-IsMirror known_tables ButSenders known_tables_local h' cfg ch a safe to
        (to - back.next_block) back (omega (arith, ge)) m)

-- An indexer with batches of at least one block has followed a chain, the senders of the executions
-- aside, is not past the safe head, and its tick finds another hash at its cursor: if its rollback succeeds, and the other chain
-- parts from the first no earlier than the block that the indexer rewinds to, which is not before its
-- start, then after that tick, and after any further ticks that see the other chain, and restarts,
-- the tables of events, bets, claims, executions and burn events are those that the other chain's
-- logs give up to the cursor, in all but the senders of the executions, whatever batches failed. The
-- logs of the first chain carry the numbers of their blocks, and no orphaned log repeats a bet or a
-- claim of the logs that stay.
pub live_recovers :
    (h h' : History) (cfg : IndexerConfig) (ch : Chain) (vs : List Event) (e : Engine) (c : Cursor)
    (head stored found : ℕ)
    → 0 < cfg.batch_size
    → IsReplicaButSenders h cfg e
    → e.cursor ≡ some c
    → c.last_block_hash ≡ some stored
    → ch.head ≡ some head
    → e.next_block ≤ safe_head cfg head
    → ch.hash_before c.next_block ≡ some found
    → (found == stored) ≡ false
    → ch.rolls_back ≡ true
    → cfg.start_block ≤ rewind_to cfg c
    → Fork h h' (rewind_to cfg c)
    → All (IsFresh (tables (apply_logs (kept_logs h cfg c) empty_store))) (orphaned_logs h cfg c)
    → Answers ButSenders h' ch
    → All (Faithful ButSenders h') vs
    → let end = live cfg (ticked ch ∷ vs) e in
      (n : ℕ) × (end.next_block ≡ cfg.start_block + n)
      × (known_tables end.store ≡ known_tables (apply_logs (span h' cfg.start_block n) empty_store))
unfolding live tick
live_recovers h h' cfg ch vs e c head stored found b r cur s at due g other rolls behind f fresh a
      fs =
    let end = live cfg (ticked ch ∷ vs) e in
    let seen = record e { head_block = head } in
    let ahead : ltb (head + 1) e.next_block ≡ false = ground (arith, due) in
    let place : e.next_block ≡ c.next_block = rw cur at r.1 in
    let back = rewind-IsMirror h h' cfg c seen (rw cur at r.0) behind f fresh in
    let found_other = check_for_reorg_rewinds cfg ch c seen stored found cur s g other rolls in
    let first : IsMirror known_tables h' cfg (tick cfg ch e).1 =
      rw (tick, at, ahead)
        (reorg_tick h h' cfg ch (safe_head cfg head) c seen b (ground (arith, due))
          (omega (arith, rewind_to-le cfg c, place, due)) found_other back a) in
    let m =
      live-IsMirror known_tables ButSenders known_tables_local h' cfg vs (tick cfg ch e).1 b fs
        first in
    blocks_done known_tables h' cfg end.cursor end.store end.next_block m.0 m.1
