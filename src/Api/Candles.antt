-- ===== src/Api/Candles.antt =====
-- `/price/candles` of apps/api/src/index.ts, over the samples of the chain that the service serves.
-- `inherited` says which names an object of JavaScript has without their being set, such as
-- `toString`: for these the handler passes to PostgreSQL what it refuses as a number.
pub mod Bounds
use mathlib.Core.List.{reverse}
use ponshot.Api.Queries.{JsNumber, Reply, limit_of, as_bigint}
use ponshot.Api.Sql.{group_by, order_desc, order_by}
use ponshot.Base.Text.{Text, codes, same_text}
use ponshot.Base.{
  ℕ, suc, ◌*◌, ◌/◌, Bool, Option, none, some, List, [], ◌∷◌, map, take, length, ltb, if◌then◌else◌,
}
use Prim.Native.Nat.{max, min}

pub record SampleRow : Type 0 where
  pub ts : ℕ
  pub spot : ℕ

pub record Candle : Type 0 where
  pub t : ℕ
  pub o : ℕ
  pub h : ℕ
  pub l : ℕ
  pub c : ℕ
  pub samples : ℕ

-- `(ts / $2) * $2`
abbrev pub bucket_ts : ℕ → SampleRow → ℕ
bucket_ts bucket s = s.ts / bucket * bucket

-- `(array_agg(spot ORDER BY ts ASC))[1]` and the same with `DESC`, with the first sample apart.
unfoldable pub earliest : SampleRow → List SampleRow → SampleRow
earliest best [] = best
earliest best (s ∷ ss) = earliest (if ltb s.ts best.ts then s else best) ss

unfoldable pub latest : SampleRow → List SampleRow → SampleRow
latest best [] = best
latest best (s ∷ ss) = latest (if ltb best.ts s.ts then s else best) ss

-- `MAX(spot)` and `MIN(spot)`
unfoldable pub highest : ℕ → List SampleRow → ℕ
highest best [] = best
highest best (s ∷ ss) = highest (max best s.spot) ss

unfoldable pub lowest : ℕ → List SampleRow → ℕ
lowest best [] = best
lowest best (s ∷ ss) = lowest (min best s.spot) ss

-- The candle of a group, which has samples.
unfoldable pub candle_of : (ℕ × List SampleRow) → Candle
unfolding earliest latest highest lowest
candle_of (t, []) = record { t = t; o = 0; h = 0; l = 0; c = 0; samples = 0 }
candle_of (t, s ∷ ss) = record {
  t = t;
  o = (earliest s ss).spot;
  h = highest s.spot ss;
  l = lowest s.spot ss;
  c = (latest s ss).spot;
  samples = suc (length ss);
}

-- The query's rows, the latest bucket first.
unfoldable pub candle_rows : (bucket limit : ℕ) → List SampleRow → List Candle
unfolding group_by order_by candle_of
candle_rows bucket limit samples =
    take limit (order_desc (λ x. x.t) (map candle_of (group_by (bucket_ts bucket) samples)))

-- `INTERVALS`
abbrev pub interval_seconds : Text → Option ℕ
interval_seconds key =
    if same_text key (codes "1m")
    then some 60
    else if same_text key (codes "5m")
    then some 300
    else if same_text key (codes "15m")
    then some 900
    else if same_text key (codes "1h")
    then some 3600
    else none

pub record CandlesAnswer : Type 0 where
  pub interval : Text
  pub bucket_seconds : ℕ
  pub candles : List Candle

abbrev pub key_or : Option Text → Text → Text
key_or none fallback = fallback
key_or (some key) fallback = key

unfoldable pub price_candles :
    (inherited : Text → Bool)
    → (Text → JsNumber)
    → (interval limit : Option Text) → List SampleRow
    → Reply CandlesAnswer
unfolding candle_rows limit_of
price_candles inherited number interval limit samples =
    let key = key_or interval (codes "5m") in
    elim (interval_seconds key) [
      | none ↦
          if inherited key
          then Reply.refused
          else Reply.failed (codes "invalid interval; expected one of 1m, 5m, 15m, 1h")
      | some bucket ↦ elim (as_bigint (limit_of number limit 120 500)) [
        | none ↦ Reply.refused
        | some n ↦ Reply.reply (record {
          interval = key;
          bucket_seconds = bucket;
          candles = reverse (candle_rows bucket n samples);
        })
      ]
    ]
