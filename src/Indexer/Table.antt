-- ===== src/Indexer/Table.antt =====
-- The statements of SQL that the indexer issues, on a table as the list of its rows for one chain.
use ponshot.Base.{
  refl, List, [], ◌∷◌, ℕ, Bool, Option, if◌then◌else◌, ◌≡◌, some, ◌+◌, none, true, Bool-cases, inl,
  inr,
}

-- Of two values that may be null, the one that is not, or the choice.
abbrev pub both : (ℕ → ℕ → ℕ) → Option ℕ → Option ℕ → Option ℕ
both pick none b = b
both pick (some a) none = some a
both pick (some a) (some b) = some (pick a b)

module _ {ℓ} {R : Type ℓ} where
  -- `INSERT … ON CONFLICT`: `same` compares the keys, and `merge old new` is the row that a conflict
  -- leaves, the old one for `DO NOTHING`.
  unfoldable pub upsert : (R → R → Bool) → (R → R → R) → R → List R → List R
  upsert same merge new [] = new ∷ []
  upsert same merge new (r ∷ rs) =
      if same r new then merge r new ∷ rs else r ∷ upsert same merge new rs

  -- `UPDATE … WHERE`
  unfoldable pub update_where : (R → Bool) → (R → R) → List R → List R
  update_where test change [] = []
  update_where test change (r ∷ rs) = (if test r then change r else r) ∷ update_where test change rs

  -- `DELETE … WHERE`
  unfoldable pub delete_where : (R → Bool) → List R → List R
  delete_where test [] = []
  delete_where test (r ∷ rs) = if test r then delete_where test rs else r ∷ delete_where test rs

  -- `COUNT(*) … WHERE`, and `SUM` of a column, which is 0 for no row, as `COALESCE` makes it.
  unfoldable pub count_where : (R → Bool) → List R → ℕ
  count_where test [] = 0
  count_where test (r ∷ rs) = (if test r then 1 else 0) + count_where test rs

  unfoldable pub sum_where : (R → Bool) → (R → ℕ) → List R → ℕ
  sum_where test column [] = 0
  sum_where test column (r ∷ rs) = (if test r then column r else 0) + sum_where test column rs

  unfoldable pub find_where : (R → Bool) → List R → Option R
  find_where test [] = none
  find_where test (r ∷ rs) = if test r then some r else find_where test rs

  -- `MIN` or `MAX` of a column that may be null, by the choice of two values.
  unfoldable pub extreme_where : (ℕ → ℕ → ℕ) → (R → Bool) → (R → Option ℕ) → List R → Option ℕ
  extreme_where pick test column [] = none
  extreme_where pick test column (r ∷ rs) =
      let rest = extreme_where pick test column rs in
      if test r then both pick (column r) rest else rest

  -- An upsert done twice is an upsert done once, if the row that a conflict leaves conflicts again
  -- and takes nothing more from the new one.
  pub upsert_twice :
      (same : R → R → Bool) (merge : R → R → R) (new : R) (rs : List R)
      → same new new ≡ true
      → merge new new ≡ new
      → ((r : R) → same r new ≡ true → same (merge r new) new ≡ true)
      → ((r : R) → merge (merge r new) new ≡ merge r new)
      → upsert same merge new (upsert same merge new rs) ≡ upsert same merge new rs
  unfolding upsert
  upsert_twice same merge new [] s m keep idem = rw (s, m)
  upsert_twice same merge new (r ∷ rs) s m keep idem = elim (Bool-cases (same r new)) [
    | inl hit ↦ rw (hit, keep r hit, idem r)
    | inr miss ↦ rw (miss, miss, upsert_twice same merge new rs s m keep idem)
  ]

  pub update_where_twice :
      (test : R → Bool) (change : R → R) (rs : List R)
      → ((r : R) → test (change r) ≡ test r)
      → ((r : R) → change (change r) ≡ change r)
      → update_where test change (update_where test change rs) ≡ update_where test change rs
  unfolding update_where
  update_where_twice test change [] keep idem = refl
  update_where_twice test change (r ∷ rs) keep idem = elim (Bool-cases (test r)) [
    | inl hit ↦ rw (hit, keep r, hit, idem r, update_where_twice test change rs keep idem)
    | inr miss ↦ rw (miss, miss, update_where_twice test change rs keep idem)
  ]
