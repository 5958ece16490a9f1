-- ===== src/Base/Division.antt =====
-- Floor division by a number that is not zero.
use Prim.Native.Nat.{ℕ, ◌+◌, ◌*◌, ◌/◌, ◌≤◌, ◌<◌}
use mathlib.Core.Path.{◌≡◌}
use native.Mathlib.Nat.{le-div_iff_mul-le, div-mul-le_self, mul-le-mul_left}
use native.Mathlib.Omega.{arith}

pub div-add-le : (a b d : ℕ) → 0 < d → a / d + b / d ≤ (a + b) / d
div-add-le a b d h =
    (le-div_iff_mul-le h).1 (omega (arith, div-mul-le_self a d, div-mul-le_self b d))

pub mul-div_self : (a d : ℕ) → 0 < d → d * a / d ≡ a
mul-div_self a d h = grind arith

pub div_mono : (a b d : ℕ) → 0 < d → a ≤ b → a / d ≤ b / d
div_mono a b d h le = grind arith

-- A share of at most 10,000 basis points is at most the whole.
pub share-le : (a bps : ℕ) → bps ≤ 10000 → a * bps / 10000 ≤ a
share-le a bps h = grind arith

-- A share of fewer than 10,000 basis points of something is less than the whole.
pub share-lt : (a bps : ℕ) → 0 < a → bps < 10000 → a * bps / 10000 < a
share-lt a bps p h = grind arith

pub tenth-le : (a bps : ℕ) → bps ≤ 1000 → a * bps / 10000 * 10 ≤ a
tenth-le a bps h = omega (arith, mul-le-mul_left a h)

pub scaled-ge : (a percent : ℕ) → a ≤ a * (100 + percent) / 100
scaled-ge a percent = grind arith

-- A percentage of something is a rise as soon as it comes to one unit.
pub scaled-gt : (a percent : ℕ) → 100 ≤ a * percent → a < a * (100 + percent) / 100
scaled-gt a percent h = grind arith
