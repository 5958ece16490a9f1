-- ===== src/Sdk/Format/Read.antt =====
-- What a formatted amount says.
use native.Mathlib.Nat.{mod-lt}
use ponshot.Base.Int.{pos}
use ponshot.Base.{
  ℕ, zero, suc, false, ltb, ◌+◌, ◌-◌, ◌*◌, ◌/◌, ◌%◌, ◌^◌, ◌<◌, ◌≡◌, refl, length, arith,
}
use ponshot.Sdk.Decimal.{
  pow_suc, spelled, to_text, pad_start, split_point, split_point_lem, spelled-to_text,
  spelled-pad_start, length-pad_start, length-to_text, to_text-NoPoint,
}
use ponshot.Sdk.Format.{fixed, format_eth}

power_positive : (d : ℕ) → 0 < 10 ^ d
power_positive zero = omega arith
power_positive (suc d) = omega (arith, pow_suc d, power_positive d)

parts_add : (scaled unit : ℕ) → 0 < unit → scaled / unit * unit + scaled % unit ≡ scaled
parts_add scaled unit h = grind arith

fixed_lem :
    (scaled d : ℕ)
    → let parts = split_point (fixed scaled (suc d)) in
      (spelled parts.0 * 10 ^ suc d + spelled parts.1 ≡ scaled) × (length parts.1 ≡ suc d)
fixed_lem scaled d =
    let unit = 10 ^ suc d in
    let some_unit : 0 < unit = power_positive (suc d) in
    let tail = pad_start (suc d) (to_text (scaled % unit)) in
    let below : scaled % unit < unit = mod-lt scaled some_unit in
    rw
      (
        split_point_lem (to_text (scaled / unit)) tail (to_text-NoPoint (scaled / unit)),
        spelled-to_text (scaled / unit),
        spelled-pad_start (suc d) (to_text (scaled % unit)),
        spelled-to_text (scaled % unit),
      )
      (
        parts_add scaled unit some_unit,
        length-pad_start (suc d) (to_text (scaled % unit)) (length-to_text (scaled % unit) d below),
      )

plain_lem :
    (wei decimals : ℕ) → format_eth (pos wei) decimals ≡ fixed (wei / 10 ^ (18 - decimals)) decimals
unfolding format_eth
plain_lem wei decimals =
    let same : wei + 0 ≡ wei = omega arith in
    let sign : ltb wei 0 ≡ false = ground arith in rw (format_eth, sign, same) refl

-- With at least one decimal and at most 18, `formatEth` of an amount that is not negative has its point before
-- exactly that many digits, and the digits spell the amount, rounded down to that many decimals.
pub format_eth-spelled :
    (wei d : ℕ)
    → d < 18
    → let parts = split_point (format_eth (pos wei) (suc d)) in
      (spelled parts.0 * 10 ^ suc d + spelled parts.1 ≡ wei / 10 ^ (18 - suc d))
      × (length parts.1 ≡ suc d)
format_eth-spelled wei d h =
    let plain : format_eth (pos wei) (suc d) ≡ fixed (wei / 10 ^ (18 - suc d)) (suc d) =
      plain_lem wei (suc d) in
    rw plain (fixed_lem (wei / 10 ^ (18 - suc d)) d)
