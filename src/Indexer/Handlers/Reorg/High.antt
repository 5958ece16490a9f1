-- ===== src/Indexer/Handlers/Reorg/High.antt =====
-- Upserts of rows that stand at a block or above it, as the rows below the block see them.
use ponshot.Base.{
  ℕ, ◌≤◌, ◌<◌, ◌≡◌, refl, ap, ◌∙◌, ◌⊎◌, inl, inr, Bool, true, false, Bool-cases, List, [], ◌∷◌, All,
  ltb, arith,
}
use ponshot.Indexer.Table.{upsert}
use ponshot.Indexer.Handlers.Rollback.{below}

-- The upserts of several rows.
abbrev pub put_rows {ℓ} : {R : Type ℓ} → (R → R → Bool) → (R → R → R) → List R → List R → List R
put_rows same merge [] rows = rows
put_rows same merge (new ∷ more) rows = put_rows same merge more (upsert same merge new rows)

module _ {R : Type 0} (block : R → ℕ) (b : ℕ) where
  -- The rows of a table that are all below the block.
  abbrev pub Low : List R → Type 0
  Low rows = All (λ r. block r < b) rows

  pub below-Low : (rows : List R) → Low rows → below block b rows ≡ rows
  unfolding below
  below-Low [] l = refl
  below-Low (r ∷ rs) l =
      let first : ltb (block r) b ≡ true = ground (arith, l.0) in
      rw first (ap (λ xs. r ∷ xs) (below-Low rs l.1))

module _ {R : Type 0} (block : R → ℕ) (same : R → R → Bool) (merge : R → R → R) (b : ℕ)
    (which : (r new : R)
      → (block (merge r new) ≡ block r) ⊎ (block (merge r new) ≡ block new)) where
  -- A row that an upsert leaves as it is.
  abbrev pub Spares : R → R → Type 0
  Spares new r = (same r new ≡ false) ⊎ (merge r new ≡ r)

  merge_high : (r new : R) → b ≤ block r → b ≤ block new → ltb (block (merge r new)) b ≡ false
  merge_high r new h k = elim (which r new) [
    | inl e ↦ ground (arith, e)
    | inr e ↦ ground (arith, e)
  ]

  upsert_low_row :
      (new r : R) (rs : List R)
      → ltb (block r) b ≡ true
      → Spares new r
      → below block b (upsert same merge new rs) ≡ below block b rs
      → below block b (upsert same merge new (r ∷ rs)) ≡ r ∷ below block b rs
  unfolding upsert below
  upsert_low_row new r rs low s rest = elim (Bool-cases (same r new)) [
    | inl hit ↦ elim s [
      | inl miss ↦ ground (arith, hit, miss)
      | inr same_row ↦ rw (hit, same_row, low) refl
    ]
    | inr miss ↦ rw (miss, low, rest) refl
  ]

  upsert_high :
      (new : R) (rows : List R)
      → b ≤ block new
      → All (Spares new) (below block b rows)
      → below block b (upsert same merge new rows) ≡ below block b rows
  unfolding upsert below
  upsert_high new [] high s =
      let drops : ltb (block new) b ≡ false = ground (arith, high) in rw drops refl
  upsert_high new (r ∷ rs) high s = elim (Bool-cases (ltb (block r) b)) [
    | inl low ↦
        let spared : All (Spares new) (r ∷ below block b rs) = rw low at s in
        rw low (upsert_low_row new r rs low spared.0 (upsert_high new rs high spared.1))
    | inr up ↦ elim (Bool-cases (same r new)) [
      | inl hit ↦ let stays = merge_high r new (ground (arith, up)) high in rw (hit, stays, up) refl
      | inr miss ↦ rw (miss, up) (upsert_high new rs high (rw up at s))
    ]
  ]

  pub put_rows_high :
      (more rows base : List R)
      → All (λ r. b ≤ block r) more
      → All (λ new. All (Spares new) base) more
      → below block b rows ≡ base
      → below block b (put_rows same merge more rows) ≡ base
  put_rows_high [] rows base high s e = e
  put_rows_high (new ∷ more) rows base high s e =
      put_rows_high more (upsert same merge new rows) base high.1 s.1
        (upsert_high new rows high.0 (rw e s.0) ∙ e)

  upsert-Low :
      (new : R) (rows : List R)
      → block new < b
      → Low block b rows
      → Low block b (upsert same merge new rows)
  unfolding upsert
  upsert-Low new [] n l = (n, tt)
  upsert-Low new (r ∷ rs) n l = elim (Bool-cases (same r new)) [
    | inl hit ↦ rw hit (elim (which r new) [ inl e ↦ rw e l.0 | inr e ↦ rw e n ], l.1)
    | inr miss ↦ rw miss (l.0, upsert-Low new rs n l.1)
  ]

  pub put_rows-Low :
      (more rows : List R)
      → Low block b more
      → Low block b rows
      → Low block b (put_rows same merge more rows)
  put_rows-Low [] rows m l = l
  put_rows-Low (new ∷ more) rows m l =
      put_rows-Low more (upsert same merge new rows) m.1 (upsert-Low new rows m.0 l)
