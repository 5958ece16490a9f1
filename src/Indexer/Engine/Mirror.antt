-- ===== src/Indexer/Engine/Mirror.antt =====
-- The tables, or a view of them, as a function of the chain's logs, over ticks, failures and restarts.

use ponshot.Base.{
  map, All, ℕ, suc, ◌+◌, ◌-◌, ◌≤◌, ◌<◌, ◌≡◌, refl, sym, ap, ◌∙◌, inl, inr, Bool, true, false,
  Bool-cases, Option, none, some, List, [], ◌∷◌, ◌++◌, arith, ltb, ◌==◌,
}
use ponshot.Indexer.Store.{Store, DecodedLog}
use ponshot.Indexer.Handlers.{apply_logs}
use ponshot.Indexer.Engine.{
  Cursor, IndexerConfig, Engine, Chain, empty_store, boot, tick, tick_at, advance, see_head,
  safe_head, check_for_reorg, check_cursor, compare_hash, index_range, write_batch, after_batch,
  batch_end, commit, resume, admit_market, resume_from, register_market, is_other_chain,
  with_sender,
}
use ponshot.Indexer.Engine.Advance.{batch_end-ge}
use ponshot.Indexer.Engine.History.{
  History, span, Answers, span-append, apply_logs-append, Event, reboot, happen, live, Faithful,
  position, ticked, restarted,
}

compare_hash_calm :
    (cfg : IndexerConfig) (rolls_back : Bool) (c : Cursor) (stored found : Option ℕ) (x : ℕ)
    (e : Engine)
    → ((s : ℕ) → stored ≡ some s → s ≡ x)
    → ((f : ℕ) → found ≡ some f → f ≡ x)
    → compare_hash cfg rolls_back c stored found e ≡ e
compare_hash_calm cfg rolls_back c none found x e p q = refl
compare_hash_calm cfg rolls_back c (some s) none x e p q = refl
compare_hash_calm cfg rolls_back c (some s) (some f) x e p q = ground (arith, p s refl, q f refl)

abbrev IfStarted : (Engine → Type 0) → Option Engine → Type 0
IfStarted P none = Unit
IfStarted P (some e) = P e

module _ {S : Type 0} (view : Store → S) where
  -- What the database holds, as the view shows it: nothing, with no cursor; or the logs before it.
  abbrev pub Mirrors : History → IndexerConfig → Option Cursor → Store → Type 0
  Mirrors h cfg none db = view db ≡ view empty_store
  Mirrors h cfg (some c) db =
      (n : ℕ) × (c.next_block ≡ cfg.start_block + n)
      × (view db ≡ view (apply_logs (span h cfg.start_block n) empty_store))
      × ((x : ℕ) → c.last_block_hash ≡ some x → x ≡ h.hash_before c.next_block)

  abbrev pub IsMirror : History → IndexerConfig → Engine → Type 0
  IsMirror h cfg e = Mirrors h cfg e.cursor e.store × (e.next_block ≡ position cfg e.cursor)

  -- How far the tables have got.
  pub blocks_done :
      (h : History) (cfg : IndexerConfig) (c : Option Cursor) (db : Store) (next : ℕ)
      → Mirrors h cfg c db
      → next ≡ position cfg c
      → (n : ℕ) × (next ≡ cfg.start_block + n)
        × (view db ≡ view (apply_logs (span h cfg.start_block n) empty_store))
  unfolding apply_logs
  blocks_done h cfg none db next m e = (0, omega arith, m)
  blocks_done h cfg (some c) db next m e = (m.0, e ∙ m.1, m.2)

-- A view that the logs act on, whatever it leaves out, of them too.
module _ {S : Type 0} (view : Store → S) (Match : List DecodedLog → List DecodedLog → Type 0)
    (local : (xs ys : List DecodedLog) (a b : Store)
      → Match xs ys
      → view a ≡ view b
      → view (apply_logs xs a) ≡ view (apply_logs ys b)) where
  module _ (h : History) (cfg : IndexerConfig) (ch : Chain) (a : Answers Match h ch) where
    check_cursor_calm :
        (c : Option Cursor) (db : Store) (e : Engine)
        → Mirrors view h cfg c db
        → check_cursor cfg ch c e ≡ e
    check_cursor_calm none db e m = refl
    check_cursor_calm (some c) db e m =
        compare_hash_calm cfg ch.rolls_back c c.last_block_hash (ch.hash_before c.next_block)
          (h.hash_before c.next_block) e m.3 (λ f. a.true_hash c.next_block)

    -- Nothing that the chain answers looks like a reorganisation.
    pub calm : (e : Engine) → IsMirror view h cfg e → check_for_reorg cfg ch e ≡ e
    unfolding check_for_reorg
    calm e r = check_cursor_calm e.cursor e.store e r.0

    -- The commit of the next blocks.
    commit-IsMirror :
        (e : Engine) (m : ℕ) (logs : List DecodedLog) (x : ℕ)
        → IsMirror view h cfg e
        → ch.logs e.next_block (e.next_block + m) ≡ some logs
        → ch.tip_hash (e.next_block + m) ≡ some x
        → IsMirror view h cfg (commit (e.next_block + m) (map (with_sender ch.senders) logs) x e)
    commit-IsMirror e m logs x r l t =
        let (n, at, rows) = blocks_done view h cfg e.cursor e.store e.next_block r.0 r.1 in
        let told = map (with_sender ch.senders) logs in
        let next = span h e.next_block (suc m) in
        let more : span h cfg.start_block n ++ next ≡ span h cfg.start_block (n + suc m) =
          ap (λ k. span h cfg.start_block n ++ span h k (suc m)) at
          ∙ sym (span-append h cfg.start_block n (suc m)) in
        (
          (
            n + suc m,
            omega arith,
            local told next e.store (apply_logs (span h cfg.start_block n) empty_store)
                  (a.true_logs e.next_block m l) rows
                ∙ ap view (
                    sym (apply_logs-append (span h cfg.start_block n) next empty_store)
                    ∙ ap (λ xs. apply_logs xs empty_store) more),
            λ y e'. let known = a.true_tip (e.next_block + m) t in ground arith,
          ),
          refl,
        )

    write_batch-IsMirror :
        (safe m : ℕ) (e : Engine) (commits : Bool) (logs : Option (List DecodedLog))
        (tip : Option ℕ)
        → IsMirror view h cfg e
        → ch.logs e.next_block (e.next_block + m) ≡ logs
        → ch.tip_hash (e.next_block + m) ≡ tip
        → IsMirror view h cfg
            (after_batch safe e (write_batch commits ch.senders (e.next_block + m) logs tip e)).1
    write_batch-IsMirror safe m e commits none tip r l t = r
    write_batch-IsMirror safe m e commits (some logs) none r l t = r
    write_batch-IsMirror safe m e false (some logs) (some x) r l t = r
    write_batch-IsMirror safe m e true (some logs) (some x) r l t = commit-IsMirror e m logs x r l t

    pub index_range-IsMirror :
        (safe to m : ℕ) (e : Engine)
        → to ≡ e.next_block + m
        → IsMirror view h cfg e
        → IsMirror view h cfg (after_batch safe e (index_range ch e.next_block to e)).1
    unfolding index_range
    index_range-IsMirror safe to m e at r =
        rw at (write_batch-IsMirror safe m e ch.commits _ _ r refl refl)

    advance-IsMirror :
        (safe : ℕ) (e : Engine)
        → 0 < cfg.batch_size
        → IsMirror view h cfg e
        → IsMirror view h cfg (advance cfg ch safe e).1
    unfolding advance
    advance-IsMirror safe e b r = elim (Bool-cases (ltb safe e.next_block)) [
      | inl idle ↦ rw (advance, idle) r
      | inr due ↦
          let to = batch_end cfg safe e.next_block in
          let ge : e.next_block ≤ to = batch_end-ge cfg safe e.next_block (ground arith) b in
          rw (advance, due, calm e r)
            (index_range-IsMirror safe to (to - e.next_block) e (omega (arith, ge)) r)
    ]

    see_head-IsMirror :
        (head : ℕ) (e : Engine) → IsMirror view h cfg e → IsMirror view h cfg (see_head cfg head e)
    see_head-IsMirror head e r = elim (Bool-cases (ltb (head + 1) e.next_block)) [
      | inl ahead ↦ rw ahead (refl, refl)
      | inr fine ↦ rw fine r
    ]

    pub tick_at-IsMirror :
        (head : Option ℕ) (e : Engine)
        → 0 < cfg.batch_size
        → IsMirror view h cfg e
        → IsMirror view h cfg (tick_at cfg ch head e).1
    tick_at-IsMirror none e b r = r
    tick_at-IsMirror (some head) e b r =
        advance-IsMirror (safe_head cfg head) (see_head cfg head e) b (see_head-IsMirror head e r)

  admit_market-Mirrors :
      (h : History) (cfg : IndexerConfig) (previous : Option ℕ) (e : Engine)
      → Mirrors view h cfg e.cursor e.store
      → IfStarted (λ e'. Mirrors view h cfg e'.cursor e'.store) (admit_market cfg previous e)
  admit_market-Mirrors h cfg none e m = m
  admit_market-Mirrors h cfg (some p) e m = elim (Bool-cases (p == cfg.prediction)) [
    | inl same ↦ rw same m
    | inr other ↦ elim (Bool-cases cfg.reset) [
      | inl wipe ↦ rw (other, wipe) refl
      | inr refuse ↦ rw (other, refuse) tt
    ]
  ]

  -- What is in the database decides where a start resumes.
  resume-IsMirror :
      (h : History) (cfg : IndexerConfig) (anchor : Option ℕ) (c : Option Cursor) (e : Engine)
      → e.cursor ≡ c
      → Mirrors view h cfg c e.store
      → IsMirror view h cfg (resume cfg anchor c e)
  resume-IsMirror h cfg anchor none e eq m = rw eq (m, refl)
  resume-IsMirror h cfg anchor (some c) e eq m =
      elim (Bool-cases (is_other_chain anchor c.genesis_hash)) [
        | inl other ↦ rw other (refl, refl)
        | inr same ↦ rw (same, eq) (m, refl)
      ]

  resume_from-IsMirror :
      (h : History) (cfg : IndexerConfig) (anchor : Option ℕ) (o : Option Engine)
      → IfStarted (λ e. Mirrors view h cfg e.cursor e.store) o
      → IfStarted (IsMirror view h cfg) (resume_from cfg anchor o)
  resume_from-IsMirror h cfg anchor none m = tt
  resume_from-IsMirror h cfg anchor (some e) m =
      resume-IsMirror h cfg anchor e.cursor (register_market cfg e) refl m

  reboot-IsMirror :
      (h : History) (cfg : IndexerConfig) (e : Engine) (o : Option Engine)
      → IsMirror view h cfg e
      → IfStarted (IsMirror view h cfg) o
      → IsMirror view h cfg (reboot e o)
  reboot-IsMirror h cfg e none r s = r
  reboot-IsMirror h cfg e (some e') r s = s

  happen-IsMirror :
      (h : History) (cfg : IndexerConfig) (v : Event) (e : Engine)
      → 0 < cfg.batch_size
      → Faithful Match h v
      → IsMirror view h cfg e
      → IsMirror view h cfg (happen cfg v e)
  unfolding tick boot
  happen-IsMirror h cfg (ticked ch) e b f r = tick_at-IsMirror h cfg ch f ch.head e b r
  happen-IsMirror h cfg (restarted anchor) e b f r = reboot-IsMirror h cfg e _ r (
      resume_from-IsMirror h cfg anchor (admit_market cfg e.market e)
        (admit_market-Mirrors h cfg e.market e r.0))

  pub live-IsMirror :
      (h : History) (cfg : IndexerConfig) (vs : List Event) (e : Engine)
      → 0 < cfg.batch_size
      → All (Faithful Match h) vs
      → IsMirror view h cfg e
      → IsMirror view h cfg (live cfg vs e)
  unfolding live
  live-IsMirror h cfg [] e b f r = r
  live-IsMirror h cfg (v ∷ vs) e b f r =
      live-IsMirror h cfg vs (happen cfg v e) b f.1 (happen-IsMirror h cfg v e b f.0 r)
