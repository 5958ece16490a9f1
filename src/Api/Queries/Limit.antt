-- ===== src/Api/Queries/Limit.antt =====
-- The bounds of `limitOf`.
use ponshot.Api.Queries.{JsNumber, limit_of, as_bigint, number_or}
use ponshot.Base.Text.{Text}
use ponshot.Base.{ℕ, ◌≡◌, ◌≤◌, Option, some, arith}

-- Whatever the query's `limit` is, the limit that a handler passes to PostgreSQL, where it is a
-- whole number, is at least 1 and at most the handler's maximum, if the fallback is.
pub limit_of-bounds :
    (number : Text → JsNumber) (q : Option Text) (fallback max n : ℕ)
    → 1 ≤ fallback
    → fallback ≤ max
    → as_bigint (limit_of number q fallback max) ≡ some n
    → (1 ≤ n) × (n ≤ max)
unfolding limit_of
limit_of-bounds number q fallback max n low high e = elim (number_or number q fallback) [
  | JsNumber.nan ↦ ground arith
  | JsNumber.negative ↦ ground arith
  | JsNumber.infinite ↦ ground arith
  | JsNumber.natural k ↦ ground arith
  | JsNumber.fraction k ↦ ground arith
]
