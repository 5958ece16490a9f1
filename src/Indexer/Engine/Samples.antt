-- ===== src/Indexer/Engine/Samples.antt =====
-- `samplePrice` of apps/indexer/src/indexer.ts, and the ticks that take a sample. An answer of the
-- oracle or the chain is `none` where the call throws; `writes` is that the statement succeeds.

pub mod Series
use ponshot.Base.Int.{ℤ}
use ponshot.Base.{
  ℕ, ◌≡◌, Bool, true, false, not, ◌&&◌, Option, none, some, List, [], ◌∷◌, any, ltb, ◌==◌,
  if◌then◌else◌, ◌>>=◌,
}
use ponshot.Indexer.Store.{PriceSample}
use ponshot.Indexer.Table.{upsert}
use ponshot.Indexer.Engine.{IndexerConfig, Engine, Chain, tick, see_head, safe_head}

pub record Quotes : Type 0 where
  pub spot : Option (ℕ × ℤ)
  pub twap : Option (ℕ × ℕ)
  pub timestamp : Option ℕ
  pub writes : Bool

abbrev pub same_sample : PriceSample → PriceSample → Bool
same_sample a b = a.ts == b.ts

abbrev pub merge_sample : PriceSample → PriceSample → PriceSample
merge_sample old new = record old { spot = new.spot; twap = new.twap; tick = new.tick }

-- The row that is written, unless the spot price or the block cannot be read.
abbrev pub new_sample : Quotes → Option PriceSample
new_sample q = do
  (spot, tick) ← q.spot
  ts ← q.timestamp
  some (record {
    ts = ts;
    spot = spot;
    twap = elim q.twap [ none ↦ none | some (price, at) ↦ some price ];
    tick = tick;
  })

abbrev put_sample : Bool → Option PriceSample → List PriceSample → List PriceSample
put_sample writes none rows = rows
put_sample false (some s) rows = rows
put_sample true (some s) rows = upsert same_sample merge_sample s rows

unfoldable pub sample_price : Quotes → List PriceSample → List PriceSample
sample_price q rows = put_sample q.writes (new_sample q) rows

-- Whether a tick gets past its early return.
abbrev pub passes_head : IndexerConfig → Option ℕ → Engine → Bool
passes_head cfg none e = false
passes_head cfg (some head) e = not (ltb (safe_head cfg head) (see_head cfg head e).next_block)

abbrev pub is_due : IndexerConfig → Chain → Engine → Bool
is_due cfg ch e =
    let after = tick cfg ch e in passes_head cfg ch.head e && not after.0 && after.1.caught_up

-- A tick with its last line.
unfoldable pub sampled_tick : IndexerConfig → Chain → Quotes → Engine → Engine
unfolding sample_price
sampled_tick cfg ch q e =
    let after = (tick cfg ch e).1 in
    if is_due cfg ch e then record after { samples = sample_price q after.samples } else after

unfoldable pub sampled_follow : IndexerConfig → List (Chain × Quotes) → Engine → Engine
unfolding sampled_tick
sampled_follow cfg [] e = e
sampled_follow cfg ((ch, q) ∷ rest) e = sampled_follow cfg rest (sampled_tick cfg ch q e)
