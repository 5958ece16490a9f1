-- ===== src/Indexer/Handlers/Rollback.antt =====
-- What `rollbackFrom` removes, and what it leaves behind.
use mathlib.Core.Bool.{false}
use ponshot.Indexer.Rows.{side_bet, side_total, of_round}
use ponshot.Indexer.Store.{Store, BetRow, RoundRow}
use ponshot.Indexer.Handlers.{rollback_from}
use ponshot.Indexer.Table.{delete_where, sum_where, find_where}
use ponshot.Base.{
  [], ◌∷◌, ℕ, List, Bool, if◌then◌else◌, leb, ◌≡◌, ltb, arith, refl, ◌&&◌, ◌+◌, some, true, ◌<◌,
}

module _ {R : Type 0} (block : R → ℕ) where
  -- The rows of a table that stand below a block, in their order.
  unfoldable pub below : ℕ → List R → List R
  below b [] = []
  below b (r ∷ rs) = let rest = below b rs in if ltb (block r) b then r ∷ rest else rest

  pub delete-below : (b : ℕ) (rs : List R) → delete_where (λ r. leb b (block r)) rs ≡ below b rs
  unfolding delete_where below
  delete-below b [] = refl
  delete-below b (r ∷ rs) = ground (arith, delete-below b rs)

-- After a rollback the five tables that carry a block number hold just their rows below the block,
-- in their order, and the other four are untouched.
pub rollback_from_lem :
    (b : ℕ) (db : Store)
    → let after = rollback_from b db in
      (after.events ≡ below (λ r. r.block_number) b db.events)
      × (after.bets ≡ below (λ r. r.block_number) b db.bets)
      × (after.claims ≡ below (λ r. r.block_number) b db.claims)
      × (after.executions ≡ below (λ r. r.block_number) b db.executions)
      × (after.burn_events ≡ below (λ r. r.block_number) b db.burn_events)
      × (after.rounds ≡ db.rounds)
      × (after.users ≡ db.users)
      × (after.observations ≡ db.observations)
      × (after.burns ≡ db.burns)
unfolding rollback_from
rollback_from_lem b db = (
  delete-below (λ r. r.block_number) b db.events,
  delete-below (λ r. r.block_number) b db.bets,
  delete-below (λ r. r.block_number) b db.claims,
  delete-below (λ r. r.block_number) b db.executions,
  delete-below (λ r. r.block_number) b db.burn_events,
  refl,
  refl,
  refl,
  refl,
)

-- The stakes on one side of a round that a rollback to a block removes.
abbrev pub removed_total : ℕ → ℕ → Bool → List BetRow → ℕ
removed_total b epoch bull bets =
    sum_where (λ r. side_bet epoch bull r && leb b r.block_number) (λ r. r.amount) bets

side_total-delete :
    (b epoch : ℕ) (bull : Bool) (bets : List BetRow)
    → side_total epoch bull (delete_where (λ r. leb b r.block_number) bets)
        + removed_total b epoch bull bets
      ≡ side_total epoch bull bets
unfolding delete_where sum_where
side_total-delete b epoch bull [] = omega arith
side_total-delete b epoch bull (r ∷ rs) = ground (arith, side_total-delete b epoch bull rs)

-- The stored total of one side of a round.
abbrev pub side_amount : Bool → RoundRow → ℕ
side_amount true r = r.bull_amount
side_amount false r = r.bear_amount

-- A rollback that removes a stake from a side of a round leaves the round's row with a total for that
-- side above what the remaining bets come to, if the row's total was right before.
pub rollback_from_stale :
    (b : ℕ) (bull : Bool) (db : Store) (r : RoundRow)
    → find_where (of_round r.epoch) db.rounds ≡ some r
    → side_amount bull r ≡ side_total r.epoch bull db.bets
    → 0 < removed_total b r.epoch bull db.bets
    → let after = rollback_from b db in
      (r' : RoundRow) × (find_where (of_round r.epoch) after.rounds ≡ some r')
      × (side_total r.epoch bull after.bets < side_amount bull r')
unfolding rollback_from
rollback_from_stale b bull db r found tallied some_removed =
    (r, found, omega (arith, side_total-delete b r.epoch bull db.bets))
