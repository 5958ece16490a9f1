-- ===== src/Api/Sql.antt =====
-- The queries of apps/api/src/index.ts, over tables as lists of rows. Where `ORDER BY` leaves the
-- order of two rows open, they keep that of the table.
pub mod Sorted
pub mod Order
pub mod Groups
use ponshot.Base.{
  ℕ, Bool, true, false, Option, none, some, List, [], ◌∷◌, ◌++◌, ltb, leb, ◌==◌, ◌&&◌,
  if◌then◌else◌,
}

module _ {ℓ} {R : Type ℓ} where
  -- `WHERE`
  unfoldable pub where_rows : (R → Bool) → List R → List R
  where_rows test [] = []
  where_rows test (r ∷ rs) = if test r then r ∷ where_rows test rs else where_rows test rs

  -- `ORDER BY`, where `ahead r x` says that `r` does not come after `x`.
  unfoldable pub insert_by : (R → R → Bool) → R → List R → List R
  insert_by ahead r [] = r ∷ []
  insert_by ahead r (x ∷ xs) = if ahead r x then r ∷ x ∷ xs else x ∷ insert_by ahead r xs

  unfoldable pub order_by : (R → R → Bool) → List R → List R
  unfolding insert_by
  order_by ahead [] = []
  order_by ahead (r ∷ rs) = insert_by ahead r (order_by ahead rs)

  -- `ORDER BY key DESC`
  abbrev pub order_desc : (R → ℕ) → List R → List R
  order_desc key = order_by (λ r x. leb (key x) (key r))

  -- `GROUP BY key`: each key with its rows, in the order of the table.
  unfoldable pub add_group : (R → ℕ) → R → List (ℕ × List R) → List (ℕ × List R)
  add_group key r [] = (key r, r ∷ []) ∷ []
  add_group key r ((k, rs) ∷ gs) =
      if k == key r then (k, r ∷ rs) ∷ gs else (k, rs) ∷ add_group key r gs

  unfoldable pub group_by : (R → ℕ) → List R → List (ℕ × List R)
  unfolding add_group
  group_by key [] = []
  group_by key (r ∷ rs) = add_group key r (group_by key rs)

  -- `rows.at(-1)`
  abbrev pub last_row : List R → Option R
  last_row [] = none
  last_row (r ∷ []) = some r
  last_row (r ∷ x ∷ xs) = last_row (x ∷ xs)
