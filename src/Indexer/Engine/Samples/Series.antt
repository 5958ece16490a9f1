-- ===== src/Indexer/Engine/Samples/Series.antt =====
-- The series of samples over the ticks of the indexer.
use mathlib.Core.List.{append-nil, append_assoc}
use ponshot.Base.Every.{IsDistinct, append-IsDistinct, append-All, All-map}
use ponshot.Base.{
  ℕ, ◌<◌, ◌≡◌, ◌≢◌, refl, sym, ap, ◌∙◌, Bool, true, false, not, ◌&&◌, ◌⊎◌, Bool-cases, Option-cases,
  inl, inr, Option, none, some, List, [], ◌∷◌, ◌++◌, map, All, ltb, ◌==◌, arith,
}
use ponshot.Indexer.Store.{PriceSample}
use ponshot.Indexer.Table.{upsert}
use ponshot.Indexer.Engine.{
  IndexerConfig, Engine, Chain, tick, advance, after_batch, index_range, check_for_reorg, batch_end,
  see_head, safe_head, tick_at,
}
use ponshot.Indexer.Engine.Samples.{
  Quotes, same_sample, merge_sample, new_sample, put_sample, sample_price, is_due, sampled_tick,
  sampled_follow,
}

abbrev pub times : List PriceSample → List ℕ
times rows = map (λ s. s.ts) rows

-- What an upsert does to the times: nothing, or one more that is new.
upsert-times :
    (s : PriceSample) (rows : List PriceSample)
    → (times (upsert same_sample merge_sample s rows) ≡ times rows)
      ⊎ ((times (upsert same_sample merge_sample s rows) ≡ times rows ++ (s.ts ∷ []))
          × All (λ t. t ≢ s.ts) (times rows))
unfolding upsert
upsert-times s [] = inr (refl, tt)
upsert-times s (r ∷ rs) = elim (Bool-cases (r.ts == s.ts)) [
  | inl hit ↦ rw hit (inl refl)
  | inr miss ↦ elim (upsert-times s rs) [
    | inl same ↦ rw miss (inl (ap (λ ts. r.ts ∷ ts) same))
    | inr (more, fresh) ↦
        rw miss (inr (ap (λ ts. r.ts ∷ ts) more, ((λ e. ground (arith, miss, e)), fresh)))
  ]
]

-- A tick writes no sample before its last line, and discards none.
check_for_reorg-samples :
    (cfg : IndexerConfig) (ch : Chain) (e : Engine) → (check_for_reorg cfg ch e).samples ≡ e.samples
unfolding check_for_reorg
check_for_reorg-samples cfg ch e = ground arith

after_batch-samples :
    (ch : Chain) (safe from to : ℕ) (e : Engine)
    → (after_batch safe e (index_range ch from to e)).1.samples ≡ e.samples
unfolding index_range
after_batch-samples ch safe from to e = ground arith

advance-samples :
    (cfg : IndexerConfig) (ch : Chain) (safe : ℕ) (e : Engine)
    → (advance cfg ch safe e).1.samples ≡ e.samples
unfolding advance
advance-samples cfg ch safe e = elim (Bool-cases (ltb safe e.next_block)) [
  | inl idle ↦ rw (advance, idle) refl
  | inr due ↦
      rw (advance, due)
        (after_batch-samples ch safe _ _ (check_for_reorg cfg ch e)
          ∙ check_for_reorg-samples cfg ch e)
]

see_head-samples :
    (cfg : IndexerConfig) (head : ℕ) (e : Engine) → (see_head cfg head e).samples ≡ e.samples
see_head-samples cfg head e = ground arith

tick_at-samples :
    (cfg : IndexerConfig) (ch : Chain) (head : Option ℕ) (e : Engine)
    → (tick_at cfg ch head e).1.samples ≡ e.samples
tick_at-samples cfg ch none e = refl
tick_at-samples cfg ch (some head) e =
    advance-samples cfg ch (safe_head cfg head) (see_head cfg head e) ∙ see_head-samples cfg head e

tick-samples :
    (cfg : IndexerConfig) (ch : Chain) (e : Engine) → (tick cfg ch e).1.samples ≡ e.samples
unfolding tick
tick-samples cfg ch e = tick_at-samples cfg ch ch.head e

-- A time at which a tick may sample: that of the latest block, when the tables are up to the last
-- confirmed block.
abbrev pub Current : IndexerConfig → Chain → Quotes → Engine → ℕ → Type 0
Current cfg ch q e t =
    (q.timestamp ≡ some t)
    × ((head : ℕ) × (ch.head ≡ some head) × (safe_head cfg head < (tick cfg ch e).1.next_block))

-- A time at which one of the ticks may sample, each on what the ticks before it left.
abbrev pub Sampled : IndexerConfig → List (Chain × Quotes) → Engine → ℕ → Type 0
Sampled cfg [] e t = ⊥
Sampled cfg ((ch, q) ∷ rest) e t =
    Current cfg ch q e t ⊎ Sampled cfg rest (sampled_tick cfg ch q e) t

-- A series goes on as another: the times of the other differ, and are those of the first and then
-- others, of which each is as said.
abbrev pub Extends : (ℕ → Type 0) → List PriceSample → List PriceSample → Type 0
Extends P old new =
    IsDistinct (times new) × ((more : List ℕ) × (times new ≡ times old ++ more) × All P more)

Extends-refl :
    (P : ℕ → Type 0) (rows : List PriceSample) → IsDistinct (times rows) → Extends P rows rows
Extends-refl P rows d = (d, ([], sym (append-nil (times rows)), tt))

new_sample-ts : (q : Quotes) (s : PriceSample) → new_sample q ≡ some s → q.timestamp ≡ some s.ts
new_sample-ts q s e = ground arith

put_sample-Extends :
    (P : ℕ → Type 0) (writes : Bool) (o : Option PriceSample) (rows : List PriceSample)
    → ((s : PriceSample) → o ≡ some s → P s.ts)
    → IsDistinct (times rows)
    → Extends P rows (put_sample writes o rows)
put_sample-Extends P writes none rows p d = Extends-refl P rows d
put_sample-Extends P false (some s) rows p d = Extends-refl P rows d
put_sample-Extends P true (some s) rows p d = elim (upsert-times s rows) [
  | inl same ↦ (rw same d, ([], same ∙ sym (append-nil (times rows)), tt))
  | inr (more, fresh) ↦
      (rw more (append-IsDistinct (times rows) s.ts d fresh), (s.ts ∷ [], more, (p s refl, tt)))
]

after_batch_caught :
    (safe : ℕ) (before : Engine) (o : Option Engine)
    → (after_batch safe before o).0 ≡ false
    → (after_batch safe before o).1.caught_up ≡ true
    → safe < (after_batch safe before o).1.next_block
after_batch_caught safe before none t c = ground (arith, t)
after_batch_caught safe before (some e) t c = ground (arith, c)

and_split : (a b c : Bool) → (not a && not b && c) ≡ true → (a ≡ false) × (b ≡ false) × (c ≡ true)
and_split a b c e = ground (arith, e)

advance_current :
    (cfg : IndexerConfig) (ch : Chain) (safe : ℕ) (e : Engine)
    → ltb safe e.next_block ≡ false
    → (advance cfg ch safe e).0 ≡ false
    → (advance cfg ch safe e).1.caught_up ≡ true
    → safe < (advance cfg ch safe e).1.next_block
unfolding advance
advance_current cfg ch safe e past t c =
    let checked = check_for_reorg cfg ch e in
    let to = batch_end cfg safe checked.next_block in
    rw (advance, past)
      (after_batch_caught safe checked (index_range ch checked.next_block to checked)
        (rw (advance, past) at t) (rw (advance, past) at c))

-- A tick that samples the price has brought the tables up to the last confirmed block.
pub is_due-current :
    (cfg : IndexerConfig) (ch : Chain) (e : Engine) (head : ℕ)
    → ch.head ≡ some head
    → is_due cfg ch e ≡ true
    → safe_head cfg head < (tick cfg ch e).1.next_block
unfolding tick
is_due-current cfg ch e head at due =
    let seen = see_head cfg head e in
    let (past, fine, caught) =
      and_split (ltb (safe_head cfg head) seen.next_block)
        (advance cfg ch (safe_head cfg head) seen).0
        (advance cfg ch (safe_head cfg head) seen).1.caught_up (rw (tick, at) at due) in
    rw at (advance_current cfg ch (safe_head cfg head) seen past fine caught)

some_head :
    (cfg : IndexerConfig) (ch : Chain) (e : Engine)
    → is_due cfg ch e ≡ true
    → (head : ℕ) × (ch.head ≡ some head)
some_head cfg ch e due = elim (Option-cases ch.head) [
  | inl off ↦ ground (arith, off, due)
  | inr on ↦ on
]

sampled_tick-Extends :
    (cfg : IndexerConfig) (ch : Chain) (q : Quotes) (e : Engine)
    → IsDistinct (times e.samples)
    → Extends (Current cfg ch q e) e.samples (sampled_tick cfg ch q e).samples
unfolding sampled_tick sample_price
sampled_tick-Extends cfg ch q e d = elim (Bool-cases (is_due cfg ch e)) [
  | inl due ↦
      let (head, at) = some_head cfg ch e due in
      rw (due, tick-samples cfg ch e)
        (put_sample-Extends (Current cfg ch q e) q.writes (new_sample q) e.samples
          (λ s new. (new_sample-ts q s new, (head, at, is_due-current cfg ch e head at due))) d)
  | inr idle ↦ rw (idle, tick-samples cfg ch e) (Extends-refl (Current cfg ch q e) e.samples d)
]

-- If the samples of the series are of different times, then over any ticks they stay so, and none is
-- ever dropped, not even by a tick that discards the read model: the times at the end are those at the beginning and then
-- others. Each of the others is the time that a tick read of its latest block, and the tables after
-- that tick were up to the last confirmed block of the head that it saw.
pub sampled_follow-Extends :
    (cfg : IndexerConfig) (ticks : List (Chain × Quotes)) (e : Engine)
    → IsDistinct (times e.samples)
    → Extends (Sampled cfg ticks e) e.samples (sampled_follow cfg ticks e).samples
unfolding sampled_follow
sampled_follow-Extends cfg [] e d = Extends-refl (Sampled cfg [] e) e.samples d
sampled_follow-Extends cfg ((ch, q) ∷ rest) e d =
    let P = Sampled cfg ((ch, q) ∷ rest) e in
    let (first, (now, at, fine)) = sampled_tick-Extends cfg ch q e d in
    let (distinct, (more, then, later)) =
      sampled_follow-Extends cfg rest (sampled_tick cfg ch q e) first in
    (
      distinct,
      (
        now ++ more,
        then ∙ ap (λ ts. ts ++ more) at ∙ append_assoc (times e.samples) now more,
        append-All P now more (All-map (Current cfg ch q e) P now (λ t c. inl c) fine)
            (All-map (Sampled cfg rest (sampled_tick cfg ch q e)) P more (λ t c. inr c) later),
      ),
    )
