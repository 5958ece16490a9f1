-- ===== src/Api/Sql/Groups.antt =====
-- The groups of `GROUP BY`.
use ponshot.Base.Every.{take-All}
use ponshot.Api.Sql.{insert_by, order_by, add_group, group_by}
use ponshot.Api.Sql.Order.{Distinct}
use ponshot.Api.Sql.Sorted.{insert_by-All, order_by-All}
use ponshot.Base.{
  zero, suc, sym, take, ℕ, ◌+◌, ◌<◌, ◌≡◌, ◌≢◌, refl, Bool-cases, inl, inr, List, [], ◌∷◌, All,
  length, arith, ◌==◌, Bool,
}

abbrev pub group_key {ℓ} : {R : Type ℓ} → (ℕ × List R) → ℕ
group_key g = g.0

module _ {ℓ} {R : Type ℓ} (key : R → ℕ) where
  -- A group has rows, and they have its key.
  abbrev pub IsGroup : (ℕ × List R) → Type 0
  IsGroup (k, rs) = (0 < length rs) × All (λ r. key r ≡ k) rs

  add_group-IsGroup :
      (r : R) (gs : List (ℕ × List R)) → All IsGroup gs → All IsGroup (add_group key r gs)
  unfolding add_group
  add_group-IsGroup r [] h = ((omega arith, (refl, tt)), tt)
  add_group-IsGroup r ((k, rs) ∷ gs) h = elim (Bool-cases (k == key r)) [
    | inl hit ↦ rw hit ((omega arith, (ground arith, h.0.1)), h.1)
    | inr miss ↦ rw miss (h.0, add_group-IsGroup r gs h.1)
  ]

  pub group_by-IsGroup : (rs : List R) → All IsGroup (group_by key rs)
  unfolding group_by
  group_by-IsGroup [] = tt
  group_by-IsGroup (r ∷ rs) = add_group-IsGroup r (group_by key rs) (group_by-IsGroup rs)

  add_group-All :
      (P : ℕ → Type 0) (r : R) (gs : List (ℕ × List R))
      → P (key r)
      → All (λ g. P g.0) gs
      → All (λ g. P g.0) (add_group key r gs)
  unfolding add_group
  add_group-All P r [] p h = (p, tt)
  add_group-All P r ((k, rs) ∷ gs) p h = elim (Bool-cases (k == key r)) [
    | inl hit ↦ rw hit h
    | inr miss ↦ rw miss (h.0, add_group-All P r gs p h.1)
  ]

  add_group-Distinct :
      (r : R) (gs : List (ℕ × List R))
      → Distinct group_key gs
      → Distinct group_key (add_group key r gs)
  unfolding add_group
  add_group-Distinct r [] h = (tt, tt)
  add_group-Distinct r ((k, rs) ∷ gs) h = elim (Bool-cases (k == key r)) [
    | inl hit ↦ rw hit h
    | inr miss ↦
        rw miss (add_group-All (λ n. n ≢ k) r gs (ground arith) h.0, add_group-Distinct r gs h.1)
  ]

  -- No two groups have the same key.
  pub group_by-Distinct : (rs : List R) → Distinct group_key (group_by key rs)
  unfolding group_by
  group_by-Distinct [] = tt
  group_by-Distinct (r ∷ rs) = add_group-Distinct r (group_by key rs) (group_by-Distinct rs)

  -- What a column comes to in the groups together is what it comes to in the rows.
  module _ (column : R → ℕ) where
    abbrev pub total_of : List R → ℕ
    total_of [] = 0
    total_of (r ∷ rs) = column r + total_of rs

    abbrev pub total_groups : List (ℕ × List R) → ℕ
    total_groups [] = 0
    total_groups (g ∷ gs) = total_of g.1 + total_groups gs

    total_groups-add_group :
        (r : R) (gs : List (ℕ × List R))
        → total_groups (add_group key r gs) ≡ column r + total_groups gs
    unfolding add_group
    total_groups-add_group r [] = omega arith
    total_groups-add_group r ((k, rs) ∷ gs) = elim (Bool-cases (k == key r)) [
      | inl hit ↦ rw hit (omega arith)
      | inr miss ↦ rw miss (omega (arith, total_groups-add_group r gs))
    ]

    pub total_groups-group_by : (rs : List R) → total_groups (group_by key rs) ≡ total_of rs
    unfolding group_by
    total_groups-group_by [] = refl
    total_groups-group_by (r ∷ rs) =
        omega (arith, total_groups-add_group r (group_by key rs), total_groups-group_by rs)

  add_group-rows :
      (P : R → Type 0) (r : R) (gs : List (ℕ × List R))
      → P r
      → All (λ g. All P g.1) gs
      → All (λ g. All P g.1) (add_group key r gs)
  unfolding add_group
  add_group-rows P r [] p h = ((p, tt), tt)
  add_group-rows P r ((k, rs) ∷ gs) p h = elim (Bool-cases (k == key r)) [
    | inl hit ↦ rw hit ((p, h.0), h.1)
    | inr miss ↦ rw miss (h.0, add_group-rows P r gs p h.1)
  ]

  -- What holds of every row holds of those of every group.
  pub group_by-rows :
      (P : R → Type 0) (rs : List R) → All P rs → All (λ g. All P g.1) (group_by key rs)
  unfolding group_by
  group_by-rows P [] h = tt
  group_by-rows P (r ∷ rs) h = add_group-rows P r (group_by key rs) h.0 (group_by-rows P rs h.1)

  -- Keys that differ stay so.
  module _ (ahead : R → R → Bool) where
    insert_by-Distinct :
        (r : R) (xs : List R)
        → All (λ x. key x ≢ key r) xs
        → Distinct key xs
        → Distinct key (insert_by ahead r xs)
    unfolding insert_by
    insert_by-Distinct r [] new d = (tt, tt)
    insert_by-Distinct r (x ∷ xs) new d = elim (Bool-cases (ahead r x)) [
      | inl here ↦ rw here (new, d)
      | inr later ↦ rw later (
        insert_by-All ahead (λ y. key y ≢ key x) r xs (λ e. new.0 (sym e)) d.0,
        insert_by-Distinct r xs new.1 d.1,
      )
    ]

    pub order_by-Distinct : (xs : List R) → Distinct key xs → Distinct key (order_by ahead xs)
    unfolding order_by
    order_by-Distinct [] d = tt
    order_by-Distinct (x ∷ xs) d =
        insert_by-Distinct x (order_by ahead xs) (order_by-All ahead (λ y. key y ≢ key x) xs d.0)
          (order_by-Distinct xs d.1)

  pub take-Distinct : (n : ℕ) (xs : List R) → Distinct key xs → Distinct key (take n xs)
  take-Distinct zero xs d = tt
  take-Distinct (suc n) [] d = tt
  take-Distinct (suc n) (x ∷ xs) d =
      (take-All (λ y. key y ≢ key x) n xs d.0, take-Distinct n xs d.1)
