-- ===== src/Api/Queries.antt =====
-- What the handlers of apps/api/src/index.ts share: `limitOf`, `requireAddress`, and how a handler
-- ends. `Number` of a text and the comparison of a column with a text that PostgreSQL reads as a
-- number are parameters.
pub mod Limit
use ponshot.Base.Text.{Text}
use ponshot.Base.{ℕ, Bool, Option, none, some, ltb, leb, if◌then◌else◌}

-- A number of JavaScript, as far as `limitOf` tells one from another: `fraction n` lies between `n`
-- and `n + 1`, and `negative` is any that is less than 0.
pub data JsNumber : Type 0 where
  nan negative infinite : JsNumber
  natural fraction : ℕ → JsNumber

-- `q.get(name) ?? fallback`, as a number.
abbrev pub number_or : (Text → JsNumber) → Option Text → ℕ → JsNumber
number_or number none fallback = JsNumber.natural fallback
number_or number (some t) fallback = number t

-- `x || fallback`
abbrev pub truthy_or : JsNumber → ℕ → JsNumber
truthy_or JsNumber.nan fallback = JsNumber.natural fallback
truthy_or (JsNumber.natural n) fallback = JsNumber.natural (if ltb 0 n then n else fallback)
truthy_or x fallback = x

-- `Math.max(1, x)` and `Math.min(max, x)`, where `x` is not NaN.
abbrev pub at_least_one : JsNumber → JsNumber
at_least_one JsNumber.nan = JsNumber.nan
at_least_one JsNumber.negative = JsNumber.natural 1
at_least_one JsNumber.infinite = JsNumber.infinite
at_least_one (JsNumber.natural n) = JsNumber.natural (if ltb n 1 then 1 else n)
at_least_one (JsNumber.fraction n) = if ltb n 1 then JsNumber.natural 1 else JsNumber.fraction n

abbrev pub at_most : ℕ → JsNumber → JsNumber
at_most max JsNumber.nan = JsNumber.nan
at_most max JsNumber.negative = JsNumber.negative
at_most max JsNumber.infinite = JsNumber.natural max
at_most max (JsNumber.natural n) = JsNumber.natural (if ltb max n then max else n)
at_most max (JsNumber.fraction n) = if leb max n then JsNumber.natural max else JsNumber.fraction n

unfoldable pub limit_of : (Text → JsNumber) → Option Text → (fallback max : ℕ) → JsNumber
limit_of number q fallback max =
    at_most max (at_least_one (truthy_or (number_or number q fallback) fallback))

-- `LIMIT` takes a whole number: PostgreSQL refuses any other.
abbrev pub as_bigint : JsNumber → Option ℕ
as_bigint (JsNumber.natural n) = some n
as_bigint _ = none

-- How PostgreSQL prints a number and compares a column with the number that a text spells; `none`
-- where it refuses the text.
pub record Numerals : Type 0 where
  pub print : ℕ → Text
  pub less : Text → Option (ℕ → Bool)
  pub equal : Text → Option (ℕ → Bool)

-- How a handler ends: with its answer, by its own exception, or by one of PostgreSQL or of a node.
pub data Reply {ℓ} (A : Type ℓ) : Type ℓ where
  reply : A → Reply A
  failed : Text → Reply A
  refused : Reply A
