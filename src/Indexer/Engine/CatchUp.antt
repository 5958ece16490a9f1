-- ===== src/Indexer/Engine/CatchUp.antt =====
-- How many ticks it takes to reach the head.
use ponshot.Indexer.Engine.History.{History, span, Answers}
use ponshot.Indexer.Engine.Mirror.{blocks_done}
use ponshot.Base.{
  some_inj, ℕ, zero, suc, ◌+◌, ◌-◌, ◌*◌, ◌≤◌, ◌<◌, ◌≡◌, ◌⊎◌, sym, ap, ◌∙◌, inl, inr, true,
  Bool-cases, some, List, [], ◌∷◌, arith, ltb, map,
}
use ponshot.Indexer.Handlers.{apply_logs}
use ponshot.Indexer.Engine.{
  IndexerConfig, Engine, Chain, empty_store, safe_head, tick, advance, follow, batch_end,
  with_sender,
}
use ponshot.Indexer.Engine.Advance.{tick_seen, see_head-next, advance-commit, batch_end-ge}
use ponshot.Indexer.Engine.Replica.{SameLogs, IsReplica, check_for_reorg_calm, tick_at-IsReplica}

-- Answers of a chain that stays at a head, of which none is missing: each log has the sender that
-- the node tells for its transaction.
pub record Quiet (h : History) (head : ℕ) (ch : Chain) : Type 0 where
  pub at_head : ch.head ≡ some head
  pub all_logs : (from n : ℕ) → ch.logs from (from + n) ≡ some (span h from (suc n))
  pub all_senders : (from n : ℕ) → map (with_sender ch.senders) (span h from n) ≡ span h from n
  pub all_hashes : (n : ℕ) → ch.hash_before n ≡ some (h.hash_before n)
  pub all_tips : (n : ℕ) → ch.tip_hash n ≡ some (h.hash_before (n + 1))
  pub commits : ch.commits ≡ true

pub Quiet-Answers : (h : History) (head : ℕ) (ch : Chain) → Quiet h head ch → Answers SameLogs h ch
Quiet-Answers h head ch q = record {
  true_logs = λ from n e.
      ap (map (with_sender ch.senders)) (some_inj (sym e ∙ q.all_logs from n))
      ∙ q.all_senders from (suc n);
  true_hash = λ n e. some_inj (sym e ∙ q.all_hashes n);
  true_tip = λ n e. some_inj (sym e ∙ q.all_tips n);
}

abbrev pub repeat {ℓ} : {A : Type ℓ} → ℕ → A → List A
repeat zero x = []
repeat (suc n) x = x ∷ repeat n x

batch_end_cases :
    (cfg : IndexerConfig) (safe from : ℕ)
    → let next = batch_end cfg safe from + 1 in
      (next ≤ safe + 1) × ((from + cfg.batch_size ≤ next) ⊎ (safe + 1 ≤ next))
batch_end_cases cfg safe from = ground arith

module _ (h : History) (cfg : IndexerConfig) (head : ℕ) (ch : Chain) (q : Quiet h head ch)
    (b : 0 < cfg.batch_size) where
  tick-IsReplica : (e : Engine) → IsReplica h cfg e → IsReplica h cfg (tick cfg ch e).1
  unfolding tick
  tick-IsReplica e r = tick_at-IsReplica h cfg ch (Quiet-Answers h head ch q) ch.head e b r

  -- A tick indexes a whole batch, or ends at the safe head.
  tick_reach :
      (e : Engine)
      → IsReplica h cfg e
      → e.next_block ≤ safe_head cfg head + 1
      → let next = (tick cfg ch e).1.next_block in
        (next ≤ safe_head cfg head + 1)
        × ((e.next_block + cfg.batch_size ≤ next) ⊎ (safe_head cfg head + 1 ≤ next))
  unfolding advance
  tick_reach e r le =
      let safe = safe_head cfg head in
      let seen = see_head-next cfg head e le in
      elim (Bool-cases (ltb safe e.next_block)) [
        | inl idle ↦
            rw (tick_seen cfg ch head e q.at_head, seen, advance, idle) (le, inr (ground arith))
        | inr due ↦
            let to = batch_end cfg safe e.next_block in
            let here : e.next_block ≤ safe = ground arith in
            let m = to - e.next_block in
            let at : to ≡ e.next_block + m =
              omega (arith, batch_end-ge cfg safe e.next_block here b) in
            let e' = record e { head_block = head } in
            let end =
              advance-commit cfg ch safe e'
                (ap (ch.logs e.next_block) at ∙ q.all_logs e.next_block m) (q.all_tips to) q.commits
                here (check_for_reorg_calm h cfg ch (Quiet-Answers h head ch q) e' r) in
            rw (tick_seen cfg ch head e q.at_head, seen, end.1)
              (batch_end_cases cfg safe e.next_block)
      ]

  -- Ticks of which a batch each covers what is left reach the safe head, and stay there.
  pub follow_reach :
      (n : ℕ) (e : Engine)
      → IsReplica h cfg e
      → e.next_block ≤ safe_head cfg head + 1
      → safe_head cfg head + 1 ≤ e.next_block + n * cfg.batch_size
      → IsReplica h cfg (follow cfg (repeat n ch) e)
        × ((follow cfg (repeat n ch) e).next_block ≡ safe_head cfg head + 1)
  unfolding follow
  follow_reach zero e r le enough = (r, omega arith)
  follow_reach (suc n) e r le enough =
      let (below, far) = tick_reach e r le in
      follow_reach n (tick cfg ch e).1 (tick-IsReplica e r) below (grind arith)

-- Once the chain stays at a head and answers, a replica whose cursor is not past the safe head is at
-- the safe head after enough ticks for its batches to cover what is left, however many more there
-- are; and its tables are then those that all the logs up to the safe head give.
pub follow_catches_up :
    (h : History) (cfg : IndexerConfig) (head : ℕ) (ch : Chain) (n : ℕ) (e : Engine)
    → Quiet h head ch
    → 0 < cfg.batch_size
    → IsReplica h cfg e
    → e.next_block ≤ safe_head cfg head + 1
    → safe_head cfg head + 1 ≤ e.next_block + n * cfg.batch_size
    → let end = follow cfg (repeat n ch) e in
      (end.next_block ≡ safe_head cfg head + 1)
      × (end.store
          ≡ apply_logs
              (span h cfg.start_block (safe_head cfg head + 1 - cfg.start_block))
              empty_store)
follow_catches_up h cfg head ch n e q b r le enough =
    let end = follow cfg (repeat n ch) e in
    let (kept, reached) = follow_reach h cfg head ch q b n e r le enough in
    let (m, at, rows) =
      blocks_done (λ db. db) h cfg end.cursor end.store end.next_block kept.0 kept.1 in
    let covered : m ≡ safe_head cfg head + 1 - cfg.start_block = omega arith in
    (reached, rows ∙ ap (λ k. apply_logs (span h cfg.start_block k) empty_store) covered)
