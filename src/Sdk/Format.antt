-- ===== src/Sdk/Format.antt =====
-- packages/sdk/src/price.ts: `formatEth`, `formatWethPerPons`, `formatChangeBps` and `formatUsd`.
-- `decimals` is at most 18, since a BigInt has no negative power.
pub mod Read
use ponshot.Base.Int.{ℤ, pos, negsuc, is_negative, magnitude}
use ponshot.Base.Text.{Text, codes}
use ponshot.Base.{
  ℕ, zero, suc, ◌+◌, ◌-◌, ◌*◌, ◌/◌, ◌%◌, ◌^◌, Bool, true, false, Option, none, some, [], ◌∷◌, ◌++◌,
  take, drop, ltb, ◌==◌, if◌then◌else◌,
}
use ponshot.Sdk.Decimal.{to_text, pad_start, zeros}

-- A number of units, each `10 ** decimals`, with its point.
abbrev pub fixed : ℕ → ℕ → Text
fixed scaled decimals =
    let unit = 10 ^ decimals in
    to_text (scaled / unit) ++ (46 ∷ pad_start decimals (to_text (scaled % unit)))

unfoldable pub format_eth : ℤ → ℕ → Text
unfolding to_text pad_start
format_eth wei decimals =
    let text = fixed (magnitude wei / 10 ^ (18 - decimals)) decimals in
    if is_negative wei then 45 ∷ text else text

unfoldable pub format_change_bps : ℤ → ℕ → Text
unfolding to_text pad_start
format_change_bps bps decimals =
    let text = fixed (magnitude bps * 10 ^ decimals / 100) decimals in
    (if is_negative bps then 45 else 43) ∷ (text ++ codes "%")

-- The zeros at the start of a text.
unfoldable pub leading_zeros : Text → ℕ
leading_zeros [] = 0
leading_zeros (c ∷ t) = let rest = leading_zeros t in if c == 48 then suc rest else 0

unfoldable pub format_weth_per_pons : ℕ → ℕ → Text
unfolding to_text pad_start leading_zeros zeros
format_weth_per_pons price significant =
    let whole = price / 10 ^ 18 in
    let digits = pad_start 18 (to_text price) in
    let first = leading_zeros digits in
    if price == 0
    then codes "0"
    else if ltb 0 whole
    then to_text whole ++ (46 ∷ take significant (pad_start 18 (to_text (price % 10 ^ 18))))
    else codes "0." ++ (zeros first ++ take significant (drop first digits))

unfoldable pub format_usd : Option ℕ → ℕ → Text
unfolding format_weth_per_pons
format_usd none significant = codes "—"
format_usd (some usd) significant = 36 ∷ format_weth_per_pons usd significant
