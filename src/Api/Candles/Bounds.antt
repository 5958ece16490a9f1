-- ===== src/Api/Candles/Bounds.antt =====
-- What a chart relies on in the candles.
use ponshot.Base.Every.{append-All, take-All, reverse-All, length-take, length-reverse}
use ponshot.Api.Queries.Limit.{limit_of-bounds}
use ponshot.Api.Sql.{group_by, order_desc}
use ponshot.Api.Queries.{JsNumber, Reply, as_bigint, limit_of}
use ponshot.Base.Text.{Text, codes}
use mathlib.Core.List.{reverse, reverse-cons}
use Prim.Native.Nat.{max, min}
use mathlib.Core.Path.{subst}
use ponshot.Api.Candles.{
  SampleRow, Candle, bucket_ts, earliest, latest, highest, lowest, candle_of, price_candles,
  candle_rows, CandlesAnswer, interval_seconds, key_or,
}
use ponshot.Api.Sql.Sorted.{order_by-All}
use ponshot.Api.Sql.Order.{Descending, Distinct, order_desc-Descending}
use ponshot.Api.Sql.Groups.{IsGroup, group_key, group_by-IsGroup, group_by-Distinct}
use ponshot.Base.{
  ℕ, zero, suc, ◌≡◌, ◌≢◌, ◌≤◌, ◌<◌, ◌*◌, ◌/◌, ltb, List, [], ◌∷◌, ◌++◌, All, map, take, length,
  arith, if◌then◌else◌, refl, Bool, Option, Option-cases, some, inl, inr, Bool-cases,
}

-- A candle's bucket is a multiple of the interval, it has samples, and its opening and closing prices
-- stand between its lowest and its highest.
pub record IsCandle (bucket : ℕ) (x : Candle) : Type 0 where
  pub aligned : x.t / bucket * bucket ≡ x.t
  pub sampled : 1 ≤ x.samples
  pub opens_above : x.l ≤ x.o
  pub opens_below : x.o ≤ x.h
  pub closes_above : x.l ≤ x.c
  pub closes_below : x.c ≤ x.h

-- Buckets that rise strictly.
abbrev pub Ascending : List Candle → Type 0
Ascending [] = Unit
Ascending (x ∷ xs) = All (λ y. x.t < y.t) xs × Ascending xs

earliest-le :
    (best : SampleRow) (m : ℕ) (ss : List SampleRow)
    → best.spot ≤ m
    → (earliest best ss).spot ≤ highest m ss
unfolding earliest highest
earliest-le best m [] h = h
earliest-le best m (s ∷ ss) h =
    earliest-le (if ltb s.ts best.ts then s else best) (max m s.spot) ss (ground arith)

latest-le :
    (best : SampleRow) (m : ℕ) (ss : List SampleRow)
    → best.spot ≤ m
    → (latest best ss).spot ≤ highest m ss
unfolding latest highest
latest-le best m [] h = h
latest-le best m (s ∷ ss) h =
    latest-le (if ltb best.ts s.ts then s else best) (max m s.spot) ss (ground arith)

lowest-le_earliest :
    (best : SampleRow) (m : ℕ) (ss : List SampleRow)
    → m ≤ best.spot
    → lowest m ss ≤ (earliest best ss).spot
unfolding earliest lowest
lowest-le_earliest best m [] h = h
lowest-le_earliest best m (s ∷ ss) h =
    lowest-le_earliest (if ltb s.ts best.ts then s else best) (min m s.spot) ss (ground arith)

lowest-le_latest :
    (best : SampleRow) (m : ℕ) (ss : List SampleRow)
    → m ≤ best.spot
    → lowest m ss ≤ (latest best ss).spot
unfolding latest lowest
lowest-le_latest best m [] h = h
lowest-le_latest best m (s ∷ ss) h =
    lowest-le_latest (if ltb best.ts s.ts then s else best) (min m s.spot) ss (ground arith)

aligned_bucket :
    (bucket n : ℕ) → 0 < bucket → n / bucket * bucket / bucket * bucket ≡ n / bucket * bucket
aligned_bucket bucket n h = grind arith

candle_of-IsCandle :
    (bucket : ℕ) (g : ℕ × List SampleRow)
    → 0 < bucket
    → IsGroup (bucket_ts bucket) g
    → IsCandle bucket (candle_of g)
unfolding candle_of
candle_of-IsCandle bucket (t, []) p h = absurd (omega (arith, h.0))
candle_of-IsCandle bucket (t, s ∷ ss) p h = record {
  aligned = subst (λ n. n / bucket * bucket ≡ n) h.1.0 (aligned_bucket bucket s.ts p);
  sampled = omega arith;
  opens_above = lowest-le_earliest s s.spot ss (omega arith);
  opens_below = earliest-le s s.spot ss (omega arith);
  closes_above = lowest-le_latest s s.spot ss (omega arith);
  closes_below = latest-le s s.spot ss (omega arith);
}

candles-All :
    (bucket : ℕ) (gs : List (ℕ × List SampleRow))
    → 0 < bucket
    → All (IsGroup (bucket_ts bucket)) gs
    → All (IsCandle bucket) (map candle_of gs)
candles-All bucket [] p h = tt
candles-All bucket (g ∷ gs) p h = (candle_of-IsCandle bucket g p h.0, candles-All bucket gs p h.1)

candle_of-t : (g : ℕ × List SampleRow) → (candle_of g).t ≡ g.0
unfolding candle_of
candle_of-t (t, []) = refl
candle_of-t (t, s ∷ ss) = refl

candles-Distinct :
    (gs : List (ℕ × List SampleRow))
    → Distinct group_key gs
    → Distinct (λ x. x.t) (map candle_of gs)
candles-Distinct [] d = tt
candles-Distinct (g ∷ gs) d = (apart gs d.0, candles-Distinct gs d.1)
  where
    apart :
        (others : List (ℕ × List SampleRow))
        → All (λ x. x.0 ≢ g.0) others
        → All (λ x. x.t ≢ (candle_of g).t) (map candle_of others)
    apart [] h = tt
    apart (x ∷ xs) h = (rw (candle_of-t x, candle_of-t g) h.0, apart xs h.1)

take-Descending :
    (n : ℕ) (xs : List Candle) → Descending (λ x. x.t) xs → Descending (λ x. x.t) (take n xs)
take-Descending zero xs d = tt
take-Descending (suc n) [] d = tt
take-Descending (suc n) (x ∷ xs) d = (take-All (λ y. y.t < x.t) n xs d.0, take-Descending n xs d.1)

append-Ascending :
    (xs : List Candle) (y : Candle)
    → Ascending xs
    → All (λ x. x.t < y.t) xs
    → Ascending (xs ++ (y ∷ []))
append-Ascending [] y a h = (tt, tt)
append-Ascending (x ∷ xs) y a h =
    (append-All (λ z. x.t < z.t) xs (y ∷ []) a.0 (h.0, tt), append-Ascending xs y a.1 h.1)

reverse-Ascending : (xs : List Candle) → Descending (λ x. x.t) xs → Ascending (reverse xs)
reverse-Ascending [] d = tt
reverse-Ascending (x ∷ xs) d = rw reverse-cons (
    append-Ascending (reverse xs) x (reverse-Ascending xs d.1)
      (reverse-All (λ y. y.t < x.t) xs d.0))

interval_positive : (key : Text) (bucket : ℕ) → interval_seconds key ≡ some bucket → 0 < bucket
interval_positive key bucket e = grind (arith, e)

rows_lem :
    (bucket n : ℕ) (samples : List SampleRow)
    → 0 < bucket
    → n ≤ 500
    → All (IsCandle bucket) (reverse (candle_rows bucket n samples))
      × Ascending (reverse (candle_rows bucket n samples))
      × (length (reverse (candle_rows bucket n samples)) ≤ 500)
unfolding candle_rows
rows_lem bucket n samples p small =
    let groups = group_by (bucket_ts bucket) samples in
    let candles = map candle_of groups in
    (
      reverse-All (IsCandle bucket) (candle_rows bucket n samples) (
          take-All (IsCandle bucket) n (order_desc (λ x. x.t) candles) (
            order_by-All _ (IsCandle bucket) candles
              (candles-All bucket groups p (group_by-IsGroup (bucket_ts bucket) samples)))),
      reverse-Ascending (candle_rows bucket n samples) (
          take-Descending n (order_desc (λ x. x.t) candles) (
            order_desc-Descending (λ x. x.t) candles
              (candles-Distinct groups (group_by-Distinct (bucket_ts bucket) samples)))),
      omega (
        arith,
        length-reverse (candle_rows bucket n samples),
        length-take n (order_desc (λ x. x.t) candles),
        small,
      ),
    )

abbrev IsChart : CandlesAnswer → Type 0
IsChart answer =
    All (IsCandle answer.bucket_seconds) answer.candles
    × Ascending answer.candles
    × (length answer.candles ≤ 500)

reply_inj : {x y : CandlesAnswer} → Reply.reply x ≡ Reply.reply y → x ≡ y
reply_inj e = cc

-- For every answer of the handler, whatever the samples and the query are: each of its candles has
-- samples, a bucket that is a multiple of the interval, and its opening and closing prices between
-- its lowest and its highest; the buckets rise strictly, so that no two candles have the same one;
-- and there are at most 500 candles.
pub price_candles-IsCandle :
    (inherited : Text → Bool) (number : Text → JsNumber) (interval limit : Option Text)
    (samples : List SampleRow) (answer : CandlesAnswer)
    → price_candles inherited number interval limit samples ≡ Reply.reply answer
    → All (IsCandle answer.bucket_seconds) answer.candles
      × Ascending answer.candles
      × (length answer.candles ≤ 500)
unfolding price_candles candle_rows
price_candles-IsCandle inherited number interval limit samples answer e =
    elim (Option-cases (interval_seconds (key_or interval (codes "5m")))) [
      | inl missing ↦ elim (Bool-cases (inherited (key_or interval (codes "5m")))) [
        | inl odd ↦ grind (arith, rw (price_candles, missing, odd) at e)
        | inr plain ↦ grind (arith, rw (price_candles, missing, plain) at e)
      ]
      | inr (bucket, known) ↦ elim (Option-cases (as_bigint (limit_of number limit 120 500))) [
        | inl broken ↦ grind (arith, rw (price_candles, known, broken) at e)
        | inr (n, whole) ↦ subst IsChart (reply_inj (rw (price_candles, known, whole) at e)) (
            rows_lem bucket n samples
              (interval_positive (key_or interval (codes "5m")) bucket known)
              (limit_of-bounds number limit 120 500 n (omega arith) (omega arith) whole).1)
      ]
    ]
