-- ===== src/Base/Every.antt =====
-- A predicate at every element of a list, under the operations on lists, and lists without
-- repetition.
use Prim.Native.Nat.{ℕ, zero, suc, ◌≤◌}
use mathlib.Core.Path.{◌≡◌, refl, sym}
use mathlib.Core.Logic.{◌≢◌, inl, inr}
use mathlib.Core.Bool.{Bool, true}
use mathlib.Core.List.{List, [], ◌∷◌, ◌++◌, reverse, reverse-cons}
use native.Mathlib.Omega.{arith}
use ponshot.Base.Lists.{All, take, drop, filter, length, length-append}
use ponshot.Base.Tests.{Bool-cases}

module _ {ℓ} {A : Type ℓ} where
  pub append-All {κ} : (P : A → Type κ) (xs ys : List A) → All P xs → All P ys → All P (xs ++ ys)
  append-All P [] ys h k = k
  append-All P (x ∷ xs) ys h k = (h.0, append-All P xs ys h.1 k)

  pub take-All {κ} : (P : A → Type κ) (n : ℕ) (xs : List A) → All P xs → All P (take n xs)
  take-All P zero xs h = tt
  take-All P (suc n) [] h = tt
  take-All P (suc n) (x ∷ xs) h = (h.0, take-All P n xs h.1)

  pub reverse-All {κ} : (P : A → Type κ) (xs : List A) → All P xs → All P (reverse xs)
  reverse-All P [] h = tt
  reverse-All P (x ∷ xs) h =
      rw reverse-cons (append-All P (reverse xs) (x ∷ []) (reverse-All P xs h.1) (h.0, tt))

  pub filter-All {κ} :
      (P : A → Type κ) (p : A → Bool) (xs : List A) → All P xs → All P (filter p xs)
  filter-All P p [] h = tt
  filter-All P p (x ∷ xs) h = elim (Bool-cases (p x)) [
    | inl hit ↦ rw (filter, hit) (h.0, filter-All P p xs h.1)
    | inr miss ↦ rw (filter, miss) (filter-All P p xs h.1)
  ]

  -- What a filter keeps passes its test.
  pub filter_passes : (p : A → Bool) (xs : List A) → All (λ x. p x ≡ true) (filter p xs)
  filter_passes p [] = tt
  filter_passes p (x ∷ xs) = elim (Bool-cases (p x)) [
    | inl hit ↦ rw (filter, hit) (hit, filter_passes p xs)
    | inr miss ↦ rw (filter, miss) (filter_passes p xs)
  ]

  pub All-map {κ μ} :
      (P : A → Type κ) (Q : A → Type μ) (xs : List A) → ((x : A) → P x → Q x) → All P xs → All Q xs
  All-map P Q [] h p = tt
  All-map P Q (x ∷ xs) h p = (h x p.0, All-map P Q xs h p.1)

  pub length-take : (n : ℕ) (xs : List A) → length (take n xs) ≤ n
  length-take zero xs = omega arith
  length-take (suc n) [] = omega arith
  length-take (suc n) (x ∷ xs) = omega (arith, length-take n xs)

  pub length-reverse : (xs : List A) → length (reverse xs) ≡ length xs
  length-reverse [] = refl
  length-reverse (x ∷ xs) =
      rw reverse-cons (omega (arith, length-append (reverse xs) (x ∷ []), length-reverse xs))

  -- No element stands twice in a list.
  abbrev pub IsDistinct : List A → Type ℓ
  IsDistinct [] = Unit
  IsDistinct (x ∷ xs) = All (λ y. x ≢ y) xs × IsDistinct xs

  pub drop-IsDistinct : (n : ℕ) (xs : List A) → IsDistinct xs → IsDistinct (drop n xs)
  drop-IsDistinct zero xs d = d
  drop-IsDistinct (suc n) [] d = tt
  drop-IsDistinct (suc n) (x ∷ xs) d = drop-IsDistinct n xs d.1

  pub filter-IsDistinct : (p : A → Bool) (xs : List A) → IsDistinct xs → IsDistinct (filter p xs)
  filter-IsDistinct p [] d = tt
  filter-IsDistinct p (x ∷ xs) d = elim (Bool-cases (p x)) [
    | inl hit ↦ rw (filter, hit) (filter-All (λ y. x ≢ y) p xs d.0, filter-IsDistinct p xs d.1)
    | inr miss ↦ rw (filter, miss) (filter-IsDistinct p xs d.1)
  ]

  pub append-IsDistinct :
      (xs : List A) (y : A) → IsDistinct xs → All (λ x. x ≢ y) xs → IsDistinct (xs ++ (y ∷ []))
  append-IsDistinct [] y d f = (tt, tt)
  append-IsDistinct (x ∷ xs) y d f =
      (append-All (λ z. x ≢ z) xs (y ∷ []) d.0 (f.0, tt), append-IsDistinct xs y d.1 f.1)

  pub reverse-IsDistinct : (xs : List A) → IsDistinct xs → IsDistinct (reverse xs)
  reverse-IsDistinct [] d = tt
  reverse-IsDistinct (x ∷ xs) d = rw reverse-cons (
      append-IsDistinct (reverse xs) x (reverse-IsDistinct xs d.1) (
        reverse-All (λ y. y ≢ x) xs
          (All-map (λ y. x ≢ y) (λ y. y ≢ x) xs (λ y n e. n (sym e)) d.0)))
