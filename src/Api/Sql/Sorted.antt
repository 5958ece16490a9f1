-- ===== src/Api/Sql/Sorted.antt =====
-- Rows in order, and what sorting, filtering and limiting them keeps.
use mathlib.Core.List.{Perm}
use mathlib.Core.List.Perm
use ponshot.Base.Every.{All-map, take-All}
use ponshot.Api.Sql.{where_rows, insert_by, order_by}
use ponshot.Base.{
  ℕ, zero, suc, ◌≡◌, refl, ap, ◌∙◌, Bool, true, false, Bool-cases, inl, inr, List, [], ◌∷◌, All,
  length, take,
}

module _ {ℓ} {R : Type ℓ} where
  pub where-All :
      (P : R → Type 0) (test : R → Bool) (xs : List R) → All P xs → All P (where_rows test xs)
  unfolding where_rows
  where-All P test [] h = tt
  where-All P test (x ∷ xs) h = elim (Bool-cases (test x)) [
    | inl hit ↦ rw hit (h.0, where-All P test xs h.1)
    | inr miss ↦ rw miss (where-All P test xs h.1)
  ]

module _ {ℓ} {R : Type ℓ} (ahead : R → R → Bool) where
  pub insert_by-All :
      (P : R → Type 0) (r : R) (xs : List R) → P r → All P xs → All P (insert_by ahead r xs)
  unfolding insert_by
  insert_by-All P r [] p h = (p, tt)
  insert_by-All P r (x ∷ xs) p h = elim (Bool-cases (ahead r x)) [
    | inl here ↦ rw here (p, h)
    | inr later ↦ rw later (h.0, insert_by-All P r xs p h.1)
  ]

  pub order_by-All : (P : R → Type 0) (xs : List R) → All P xs → All P (order_by ahead xs)
  unfolding order_by
  order_by-All P [] h = tt
  order_by-All P (x ∷ xs) h = insert_by-All P x (order_by ahead xs) h.0 (order_by-All P xs h.1)

  length-insert_by : (r : R) (xs : List R) → length (insert_by ahead r xs) ≡ suc (length xs)
  unfolding insert_by
  length-insert_by r [] = refl
  length-insert_by r (x ∷ xs) = elim (Bool-cases (ahead r x)) [
    | inl here ↦ rw here refl
    | inr later ↦ rw later (ap suc (length-insert_by r xs))
  ]

  pub length-order_by : (xs : List R) → length (order_by ahead xs) ≡ length xs
  unfolding order_by
  length-order_by [] = refl
  length-order_by (x ∷ xs) = length-insert_by x (order_by ahead xs) ∙ ap suc (length-order_by xs)

  Perm-insert_by : (r : R) (xs : List R) → Perm (insert_by ahead r xs) (r ∷ xs)
  unfolding insert_by
  Perm-insert_by r [] = Perm.rfl
  Perm-insert_by r (x ∷ xs) = elim (Bool-cases (ahead r x)) [
    | inl here ↦ rw here Perm.rfl
    | inr later ↦ rw later (Perm.trans (Perm.cons x (Perm-insert_by r xs)) (Perm.swap r x xs))
  ]

  pub Perm-order_by : (xs : List R) → Perm (order_by ahead xs) xs
  unfolding order_by
  Perm-order_by [] = Perm.rfl
  Perm-order_by (x ∷ xs) =
      Perm.trans (Perm-insert_by x (order_by ahead xs)) (Perm.cons x (Perm-order_by xs))

  -- Each row is ahead of all that follow it.
  abbrev pub InOrder : List R → Type 0
  InOrder [] = Unit
  InOrder (r ∷ rs) = All (λ x. ahead r x ≡ true) rs × InOrder rs

  pub take-InOrder : (n : ℕ) (xs : List R) → InOrder xs → InOrder (take n xs)
  take-InOrder zero xs h = tt
  take-InOrder (suc n) [] h = tt
  take-InOrder (suc n) (x ∷ xs) h =
      (take-All (λ y. ahead x y ≡ true) n xs h.0, take-InOrder n xs h.1)

  module _ (total : (x y : R) → ahead x y ≡ false → ahead y x ≡ true)
      (transitive : (x y z : R) → ahead x y ≡ true → ahead y z ≡ true → ahead x z ≡ true) where
    insert_by-InOrder : (r : R) (xs : List R) → InOrder xs → InOrder (insert_by ahead r xs)
    unfolding insert_by
    insert_by-InOrder r [] h = (tt, tt)
    insert_by-InOrder r (x ∷ xs) h = elim (Bool-cases (ahead r x)) [
      | inl here ↦ rw here (
        (
          here,
          All-map (λ y. ahead x y ≡ true) (λ y. ahead r y ≡ true) xs
              (λ y p. transitive r x y here p) h.0,
        ),
        h,
      )
      | inr later ↦ rw later (
        insert_by-All (λ y. ahead x y ≡ true) r xs (total r x later) h.0,
        insert_by-InOrder r xs h.1,
      )
    ]

    pub order_by-InOrder : (xs : List R) → InOrder (order_by ahead xs)
    unfolding order_by
    order_by-InOrder [] = tt
    order_by-InOrder (x ∷ xs) = insert_by-InOrder x (order_by ahead xs) (order_by-InOrder xs)
