-- ===== src/Sdk/Price.antt =====
-- packages/sdk/src/price.ts: the integer parts of the price display.
use ponshot.Base.{ℕ, ◌*◌, ◌/◌, ◌^◌, Option, none, some, ◌==◌, if◌then◌else◌}
use ponshot.Base.Int.{ℤ, pos, negsuc, sub_ℕ, scale, quot}

unfoldable pub change_bps : ℕ → ℕ → ℤ
change_bps from to = if from == 0 then pos 0 else quot (scale 10000 (sub_ℕ to from)) from

-- The ETH/USD figure may be absent, and may be any integer.
unfoldable pub pons_usd_x18 : ℕ → Option ℤ → Option ℕ
pons_usd_x18 weth_per_pons none = none
pons_usd_x18 weth_per_pons (some (negsuc n)) = none
pons_usd_x18 weth_per_pons (some (pos n)) =
    if n == 0 then none else some (weth_per_pons * n / 10 ^ 8)
