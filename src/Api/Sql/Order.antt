-- ===== src/Api/Sql/Order.antt =====
-- Rows in descending order.

use ponshot.Base.Every.{All-map}
use ponshot.Base.{
  ℕ, zero, suc, ◌≤◌, ◌<◌, ◌≡◌, ◌≢◌, refl, sym, inl, inr, Bool, true, false, Bool-cases, some, List,
  [], ◌∷◌, All, arith, ltb, leb, take, drop, ap,
}
use ponshot.Api.Sql.Sorted.{insert_by-All, order_by-All, where-All}
use ponshot.Api.Sql.{where_rows, insert_by, order_by, order_desc, last_row}

some_inj {ℓ} : {A : Type ℓ} {x y : A} → some x ≡ some y → x ≡ y
some_inj e = cc

module _ {ℓ} {R : Type ℓ} (key : R → ℕ) where
  abbrev at_least : R → R → Bool
  at_least r x = leb (key x) (key r)

  abbrev insert_desc : R → List R → List R
  insert_desc = insert_by at_least

  -- Keys that fall strictly, and keys of which no two are the same.
  abbrev pub Descending : List R → Type 0
  Descending [] = Unit
  Descending (r ∷ rs) = All (λ x. key x < key r) rs × Descending rs

  abbrev pub Distinct : List R → Type 0
  Distinct [] = Unit
  Distinct (r ∷ rs) = All (λ x. key x ≢ key r) rs × Distinct rs

  insert_desc-Descending :
      (r : R) (xs : List R)
      → All (λ x. key x ≢ key r) xs
      → Descending xs
      → Descending (insert_desc r xs)
  unfolding insert_by
  insert_desc-Descending r [] new d = (tt, tt)
  insert_desc-Descending r (x ∷ xs) new d = elim (Bool-cases (leb (key x) (key r))) [
    | inl here ↦
        let less : key x < key r = ground (arith, new.0) in
        rw here (
          (
            less,
            All-map (λ y. key y < key x) (λ y. key y < key r) xs (λ y h. omega (arith, h, less))
                d.0,
          ),
          d,
        )
    | inr later ↦ rw later (
      insert_by-All at_least (λ y. key y < key x) r xs (ground arith) d.0,
      insert_desc-Descending r xs new.1 d.1,
    )
  ]

  -- Sorted rows of different keys fall strictly.
  pub order_desc-Descending : (xs : List R) → Distinct xs → Descending (order_desc key xs)
  unfolding order_by
  order_desc-Descending [] d = tt
  order_desc-Descending (x ∷ xs) d =
      insert_desc-Descending x (order_desc key xs)
        (order_by-All at_least (λ y. key y ≢ key x) xs d.0) (order_desc-Descending xs d.1)

  -- A filter commutes with the sort.
  insert_desc_first :
      (r : R) (xs : List R) → All (λ x. key x ≤ key r) xs → insert_desc r xs ≡ r ∷ xs
  unfolding insert_by
  insert_desc_first r [] h = refl
  insert_desc_first r (x ∷ xs) h = ground (arith, h.0)

  pub where-Descending :
      (test : R → Bool) (xs : List R) → Descending xs → Descending (where_rows test xs)
  unfolding where_rows
  where-Descending test [] d = tt
  where-Descending test (x ∷ xs) d = elim (Bool-cases (test x)) [
    | inl hit ↦ rw hit (where-All (λ y. key y < key x) test xs d.0, where-Descending test xs d.1)
    | inr miss ↦ rw miss (where-Descending test xs d.1)
  ]

  where-insert_hit :
      (test : R → Bool) (r : R) (xs : List R)
      → test r ≡ true
      → Descending xs
      → where_rows test (insert_desc r xs) ≡ insert_desc r (where_rows test xs)
  unfolding where_rows insert_by
  where-insert_hit test r [] hit d = rw hit
  where-insert_hit test r (x ∷ xs) hit d = elim (Bool-cases (leb (key x) (key r))) [
    | inl here ↦
        let low : key x ≤ key r = ground arith in
        let first : insert_desc r (where_rows test (x ∷ xs)) ≡ r ∷ where_rows test (x ∷ xs) =
          insert_desc_first r (where_rows test (x ∷ xs)) (
            where-All (λ y. key y ≤ key r) test (x ∷ xs)
              (
                low,
                All-map (λ y. key y < key x) (λ y. key y ≤ key r) xs (λ y h. omega (arith, h, low))
                    d.0,
              )) in
        rw (here, hit) (sym first)
    | inr later ↦ elim (Bool-cases (test x)) [
      | inl keep ↦ rw (later, keep, later, where-insert_hit test r xs hit d.1)
      | inr skip ↦ rw (later, skip, where-insert_hit test r xs hit d.1)
    ]
  ]

  where-insert_miss :
      (test : R → Bool) (r : R) (xs : List R)
      → test r ≡ false
      → where_rows test (insert_desc r xs) ≡ where_rows test xs
  unfolding where_rows insert_by
  where-insert_miss test r [] miss = rw miss
  where-insert_miss test r (x ∷ xs) miss = elim (Bool-cases (leb (key x) (key r))) [
    | inl here ↦ rw (here, miss)
    | inr later ↦ rw (later, where-insert_miss test r xs miss)
  ]

  pub where-order_desc :
      (test : R → Bool) (xs : List R)
      → Distinct xs
      → order_desc key (where_rows test xs) ≡ where_rows test (order_desc key xs)
  unfolding where_rows order_by
  where-order_desc test [] d = refl
  where-order_desc test (x ∷ xs) d = elim (Bool-cases (test x)) [
    | inl hit ↦
        rw (hit, where-order_desc test xs d.1)
          (sym (where-insert_hit test x (order_desc key xs) hit (order_desc-Descending xs d.1)))
    | inr miss ↦
        rw (miss, where-order_desc test xs d.1)
          (sym (where-insert_miss test x (order_desc key xs) miss))
  ]

  -- A filter of filtered rows that keeps nothing more.
  pub where-where :
      (test wider : R → Bool) (xs : List R)
      → ((x : R) → test x ≡ true → wider x ≡ true)
      → where_rows test (where_rows wider xs) ≡ where_rows test xs
  unfolding where_rows
  where-where test wider [] h = refl
  where-where test wider (x ∷ xs) h = elim (Bool-cases (wider x)) [
    | inl hit ↦ rw (hit, where-where test wider xs h)
    | inr miss ↦ elim (Bool-cases (test x)) [
      | inl kept ↦ grind (arith, h x kept)
      | inr gone ↦ rw (miss, gone, where-where test wider xs h)
    ]
  ]

  pub last-All :
      (P : R → Type 0) (n : ℕ) (xs : List R) (r : R)
      → All P xs
      → last_row (take n xs) ≡ some r
      → P r
  last-All P zero xs r h e = ground arith
  last-All P (suc n) [] r h e = ground arith
  last-All P (suc zero) (x ∷ xs) r h e = grind (arith, e, h)
  last-All P (suc (suc n)) (x ∷ []) r h e = grind (arith, e, h)
  last-All P (suc (suc n)) (x ∷ y ∷ xs) r h e = last-All P (suc n) (y ∷ xs) r h.1 e

  pub where_kept :
      (test : R → Bool) (xs : List R) → All (λ x. test x ≡ true) xs → where_rows test xs ≡ xs
  unfolding where_rows
  where_kept test [] h = refl
  where_kept test (x ∷ xs) h = rw (h.0, where_kept test xs h.1)

  where_below :
      (x r : R) (xs : List R)
      → Descending (x ∷ xs)
      → some x ≡ some r
      → where_rows (λ y. ltb (key y) (key r)) (x ∷ xs) ≡ xs
  unfolding where_rows
  where_below x r xs d e =
      let same : key x ≡ key r = ap key (some_inj e) in
      let off : ltb (key x) (key r) ≡ false = ground (arith, same) in
      rw (
        off,
        where_kept (λ y. ltb (key y) (key r)) xs
            (All-map (λ y. key y < key x) (λ y. ltb (key y) (key r) ≡ true) xs
              (λ y h. ground (arith, h, same)) d.0),
      )

  -- Rows under the last one of a page are those after the page.
  pub where_after :
      (n : ℕ) (xs : List R) (r : R)
      → Descending xs
      → last_row (take n xs) ≡ some r
      → where_rows (λ x. ltb (key x) (key r)) xs ≡ drop n xs
  unfolding where_rows
  where_after zero xs r d e = ground arith
  where_after (suc n) [] r d e = ground arith
  where_after (suc zero) (x ∷ xs) r d e = where_below x r xs d e
  where_after (suc (suc n)) (x ∷ []) r d e = where_below x r [] d e
  where_after (suc (suc n)) (x ∷ y ∷ xs) r d e =
      let less : key r < key x = last-All (λ z. key z < key x) (suc n) (y ∷ xs) r d.0 e in
      let off : ltb (key x) (key r) ≡ false = ground arith in
      rw off (where_after (suc n) (y ∷ xs) r d.1 e)
