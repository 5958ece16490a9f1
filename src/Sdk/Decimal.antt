-- ===== src/Sdk/Decimal.antt =====
-- Decimal texts as JavaScript prints a BigInt and pads it, with what they spell.

use ponshot.Base.Text.{Text}
use ponshot.Base.{
  ℕ, zero, suc, ◌+◌, ◌-◌, ◌*◌, ◌/◌, ◌%◌, ◌^◌, ◌≤◌, ◌<◌, ◌≡◌, ◌≢◌, refl, true, false, Bool-cases,
  inl, inr, [], ◌∷◌, ◌++◌, All, length, length-append, ltb, arith, if◌then◌else◌, ◌==◌,
}

-- `n.toString()`; the first number bounds the digits, and `n` is enough.
unfoldable pub to_digits : ℕ → ℕ → Text
to_digits zero n = (48 + n % 10) ∷ []
to_digits (suc fuel) n = elim (ltb n 10) [
  | true ↦ (48 + n) ∷ []
  | false ↦ to_digits fuel (n / 10) ++ ((48 + n % 10) ∷ [])
]

unfoldable pub to_text : ℕ → Text
unfolding to_digits
to_text n = to_digits n n

-- `"0".repeat(n)` and `t.padStart(width, "0")`
unfoldable pub zeros : ℕ → Text
zeros zero = []
zeros (suc n) = 48 ∷ zeros n

unfoldable pub pad_start : ℕ → Text → Text
unfolding zeros
pad_start width t = zeros (width - length t) ++ t

-- The number that digits spell, after those that spell the first number.
unfoldable pub spelled_from : ℕ → Text → ℕ
spelled_from n [] = n
spelled_from n (c ∷ t) = spelled_from (n * 10 + (c - 48)) t

abbrev pub spelled : Text → ℕ
spelled = spelled_from 0

spelled_from-append :
    (n c : ℕ) (t : Text) → spelled_from n (t ++ (c ∷ [])) ≡ spelled_from n t * 10 + (c - 48)
unfolding spelled_from
spelled_from-append n c [] = refl
spelled_from-append n c (x ∷ t) = spelled_from-append (n * 10 + (x - 48)) c t

large_ge : (n : ℕ) → ltb n 10 ≡ false → 10 ≤ n
large_ge n e = ground arith

small_lt : (n : ℕ) → ltb n 10 ≡ true → n < 10
small_lt n e = ground arith

spelled-to_digits : (fuel n : ℕ) → n ≤ fuel → spelled (to_digits fuel n) ≡ n
unfolding spelled_from to_digits
spelled-to_digits zero n h = omega (arith, h)
spelled-to_digits (suc fuel) n h = elim (Bool-cases (ltb n 10)) [
  | inl small ↦ rw (to_digits, small) (omega arith)
  | inr large ↦
      let smaller : n / 10 ≤ fuel = omega (arith, large_ge n large, h) in
      rw
        (
          to_digits,
          large,
          spelled_from-append 0 (48 + n % 10) (to_digits fuel (n / 10)),
          spelled-to_digits fuel (n / 10) smaller,
        )
        (omega arith)
]

-- A number is what its digits spell.
pub spelled-to_text : (n : ℕ) → spelled (to_text n) ≡ n
unfolding to_text
spelled-to_text n = spelled-to_digits n n (omega arith)

zeros-spelled : (n : ℕ) (t : Text) → spelled (zeros n ++ t) ≡ spelled t
unfolding spelled_from zeros
zeros-spelled zero t = refl
zeros-spelled (suc n) t = zeros-spelled n t

length-zeros : (n : ℕ) → length (zeros n) ≡ n
unfolding zeros
length-zeros zero = refl
length-zeros (suc n) = omega (arith, length-zeros n)

pub spelled-pad_start : (width : ℕ) (t : Text) → spelled (pad_start width t) ≡ spelled t
unfolding pad_start
spelled-pad_start width t = zeros-spelled (width - length t) t

pub length-pad_start :
    (width : ℕ) (t : Text) → length t ≤ width → length (pad_start width t) ≡ width
unfolding pad_start
length-pad_start width t h =
    omega (arith, length-append (zeros (width - length t)) t, length-zeros (width - length t), h)

pub pow_suc : (d : ℕ) → 10 ^ suc d ≡ 10 * 10 ^ d
pow_suc d = grind arith

length-to_digits : (fuel n d : ℕ) → n ≤ fuel → n < 10 ^ suc d → length (to_digits fuel n) ≤ suc d
unfolding to_digits
length-to_digits zero n d h lt = omega arith
length-to_digits (suc fuel) n zero h lt = elim (Bool-cases (ltb n 10)) [
  | inl small ↦ rw (to_digits, small) (omega arith)
  | inr large ↦ absurd (omega (arith, large_ge n large, lt))
]
length-to_digits (suc fuel) n (suc d) h lt = elim (Bool-cases (ltb n 10)) [
  | inl small ↦ rw (to_digits, small) (omega arith)
  | inr large ↦
      let smaller : n / 10 ≤ fuel = omega (arith, large_ge n large, h) in
      let fits : n / 10 < 10 ^ suc d = omega (arith, lt, pow_suc (suc d)) in
      rw (to_digits, large)
        (omega (
          arith,
          length-append (to_digits fuel (n / 10)) ((48 + n % 10) ∷ []),
          length-to_digits fuel (n / 10) d smaller fits,
        ))
]

-- No digit is a point.
abbrev pub NoPoint : Text → Type 0
NoPoint = All (λ c. c ≢ 46)

append-NoPoint : (s t : Text) → NoPoint s → NoPoint t → NoPoint (s ++ t)
append-NoPoint [] t h k = k
append-NoPoint (c ∷ s) t h k = (h.0, append-NoPoint s t h.1 k)

to_digits-NoPoint : (fuel n : ℕ) → NoPoint (to_digits fuel n)
unfolding to_digits
to_digits-NoPoint zero n = (omega arith, tt)
to_digits-NoPoint (suc fuel) n = elim (Bool-cases (ltb n 10)) [
  | inl small ↦ rw (to_digits, small) (omega arith, tt)
  | inr large ↦
      rw (to_digits, large)
        (append-NoPoint (to_digits fuel (n / 10)) ((48 + n % 10) ∷ [])
          (to_digits-NoPoint fuel (n / 10)) (omega arith, tt))
]

pub to_text-NoPoint : (n : ℕ) → NoPoint (to_text n)
unfolding to_text
to_text-NoPoint n = to_digits-NoPoint n n

zeros-NoPoint : (n : ℕ) → NoPoint (zeros n)
unfolding zeros
zeros-NoPoint zero = tt
zeros-NoPoint (suc n) = (omega arith, zeros-NoPoint n)

pub pad_start-NoPoint : (width : ℕ) (t : Text) → NoPoint t → NoPoint (pad_start width t)
unfolding pad_start
pad_start-NoPoint width t h =
    append-NoPoint (zeros (width - length t)) t (zeros-NoPoint (width - length t)) h

-- A number below a power of ten has no more digits than its exponent.
pub length-to_text : (n d : ℕ) → n < 10 ^ suc d → length (to_text n) ≤ suc d
unfolding to_text
length-to_text n d h = length-to_digits n n d (omega arith) h

-- What stands before the first point of a text, and after it.
unfoldable pub split_point : Text → Text × Text
split_point [] = ([], [])
split_point (c ∷ t) = let rest = split_point t in if c == 46 then ([], t) else (c ∷ rest.0, rest.1)

pub split_point_lem : (s t : Text) → NoPoint s → split_point (s ++ (46 ∷ t)) ≡ (s, t)
unfolding split_point
split_point_lem [] t h = refl
split_point_lem (c ∷ s) t h =
    let other : (c == 46) ≡ false = ground (arith, h.0) in rw (other, split_point_lem s t h.1)
