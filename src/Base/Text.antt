-- ===== src/Base/Text.antt =====
-- Texts as lists of UTF-16 code units, with the string functions of JavaScript that the code uses.
use Prim.Native.Char.{code}
use Prim.Native.String.{String}
use Prim.Native.Nat.{ℕ, ◌+◌}
use mathlib.Core.Path.{◌≡◌, refl}
use native.Mathlib.Omega.{arith}
use mathlib.Core.Bool.{Bool, true, false, ◌&&◌, ◌||◌}
use mathlib.Core.List.{List, [], ◌∷◌, ◌++◌, reverse, map}
use ponshot.Base.Tests.{leb, ◌==◌, if◌then◌else◌}

abbrev pub Text : Type 0
Text = List ℕ

-- The code units of a literal, which is ASCII wherever the models use it.
abbrev pub codes : String → Text
codes String.[] = []
codes (String.◌∷◌ c s) = code c ∷ codes s

unfoldable pub starts_with : Text → Text → Bool
starts_with t [] = true
starts_with [] (q ∷ p) = false
starts_with (c ∷ t) (q ∷ p) = elim (c == q) [ true ↦ starts_with t p | false ↦ false ]

-- `t.includes(p)`
unfoldable pub includes : Text → Text → Bool
unfolding starts_with
includes [] p = starts_with [] p
includes (c ∷ t) p = elim (starts_with (c ∷ t) p) [ true ↦ true | false ↦ includes t p ]

-- One unit as a pattern with the flag `i` compares it, for the patterns here, which are ASCII.
abbrev pub lower_unit : ℕ → ℕ
lower_unit c = if leb 65 c && leb c 90 then c + 32 else c

unfoldable pub to_lower : Text → Text
to_lower = map lower_unit

-- The white space that `trim` takes off.
abbrev is_space : ℕ → Bool
is_space c =
    (leb 9 c && leb c 13)
    || c == 32
    || c == 160
    || c == 5760
    || (leb 8192 c && leb c 8202)
    || c == 8232
    || c == 8233
    || c == 8239
    || c == 8287
    || c == 12288
    || c == 65279

unfoldable pub trim_start : Text → Text
trim_start [] = []
trim_start (c ∷ t) = elim (is_space c) [ true ↦ trim_start t | false ↦ c ∷ t ]

unfoldable pub trim : Text → Text
unfolding trim_start
trim t = reverse (trim_start (reverse (trim_start t)))

-- `texts.join(separator)`
unfoldable pub join : Text → List Text → Text
join separator [] = []
join separator (t ∷ []) = t
join separator (t ∷ u ∷ rest) = t ++ (separator ++ join separator (u ∷ rest))

abbrev pub is_empty : Text → Bool
is_empty [] = true
is_empty (c ∷ t) = false

abbrev pub same_text : Text → Text → Bool
same_text [] [] = true
same_text (a ∷ s) (b ∷ t) = (a == b) && same_text s t
same_text _ _ = false

pub same_text_lem : (s t : Text) → same_text s t ≡ true → s ≡ t
same_text_lem [] [] h = refl
same_text_lem [] (b ∷ t) h = absurd (ground arith)
same_text_lem (a ∷ s) [] h = absurd (ground arith)
same_text_lem (a ∷ s) (b ∷ t) h = ground (arith, same_text_lem s t)
