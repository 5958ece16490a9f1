-- ===== src/Api/Stats/Volume.antt =====
-- The volume of `/prediction/stats` against the totals of the rounds.
use ponshot.Api.Rounds.{epoch_of}
use ponshot.Api.Sql.Order.{Distinct}
use ponshot.Api.Stats.{stats_row, every}
use ponshot.Base.{
  ℕ, ◌≡◌, ◌≢◌, ◌+◌, refl, Bool, true, false, List, [], ◌∷◌, All, any, arith, Bool-cases, inl, inr,
  ◌==◌, not, sym, ◌∙◌,
}
use ponshot.Indexer.Handlers.Totals.{IsSummed}
use ponshot.Indexer.Rows.{side_total, is_bull}
use ponshot.Indexer.Store.{Store, RoundRow, BetRow}
use ponshot.Indexer.Table.{sum_where}

-- Every bet is on a round that has a row.
abbrev pub AllOnRounds : List RoundRow → List BetRow → Type 0
AllOnRounds rounds bets = All (λ b. any (λ r. r.epoch == b.epoch) rounds ≡ true) bets

sides :
    (bets : List BetRow)
    → sum_where every (λ b. b.amount) bets
      ≡ sum_where (λ b. is_bull b.position) (λ b. b.amount) bets
        + sum_where (λ b. not (is_bull b.position)) (λ b. b.amount) bets
unfolding sum_where
sides [] = refl
sides (b ∷ bs) = ground (arith, sides bs)

-- What the bets on one round come to.
bets_of : ℕ → List BetRow → ℕ
bets_of epoch = sum_where (λ b. b.epoch == epoch) (λ b. b.amount)

two_sides :
    (epoch : ℕ) (bets : List BetRow)
    → side_total epoch true bets + side_total epoch false bets ≡ bets_of epoch bets
unfolding sum_where bets_of
two_sides epoch [] = refl
two_sides epoch (b ∷ bs) = ground (arith, two_sides epoch bs)

on_rounds : List RoundRow → BetRow → Bool
on_rounds rounds b = any (λ r. r.epoch == b.epoch) rounds

not_on :
    (epoch : ℕ) (rounds : List RoundRow) (b : BetRow)
    → All (λ x. x.epoch ≢ epoch) rounds
    → b.epoch ≡ epoch
    → on_rounds rounds b ≡ false
unfolding on_rounds
not_on epoch [] b new e = refl
not_on epoch (r ∷ rounds) b new e = ground (arith, new.0, e, not_on epoch rounds b new.1 e)

-- The bets on one more round.
one_more :
    (r : RoundRow) (rounds : List RoundRow) (bets : List BetRow)
    → All (λ x. x.epoch ≢ r.epoch) rounds
    → bets_of r.epoch bets + sum_where (on_rounds rounds) (λ b. b.amount) bets
      ≡ sum_where (on_rounds (r ∷ rounds)) (λ b. b.amount) bets
unfolding bets_of sum_where on_rounds
one_more r rounds [] new = refl
one_more r rounds (b ∷ bs) new = elim (Bool-cases (b.epoch == r.epoch)) [
  | inl hit ↦
      let off : on_rounds rounds b ≡ false = not_on r.epoch rounds b new (ground arith) in
      let same : on_rounds (r ∷ rounds) b ≡ true = ground arith in
      rw (hit, off, same) (omega (arith, one_more r rounds bs new))
  | inr miss ↦
      let other : on_rounds (r ∷ rounds) b ≡ on_rounds rounds b = ground arith in
      rw (miss, other) (omega (arith, one_more r rounds bs new))
]

none_on : (bets : List BetRow) → sum_where (on_rounds []) (λ b. b.amount) bets ≡ 0
unfolding sum_where on_rounds
none_on [] = refl
none_on (b ∷ bs) = omega (arith, none_on bs)

spread :
    (bets : List BetRow) (rounds : List RoundRow)
    → Distinct epoch_of rounds
    → All (IsSummed bets) rounds
    → sum_where every (λ r. r.total_amount) rounds
      ≡ sum_where (on_rounds rounds) (λ b. b.amount) bets
unfolding sum_where
spread bets [] d h = sym (none_on bets)
spread bets (r ∷ rounds) d h = omega (
  arith,
  h.0.bull_right,
  h.0.bear_right,
  h.0.total_right,
  two_sides r.epoch bets,
  one_more r rounds bets d.0,
  spread bets rounds d.1 h.1,
)

covered :
    (rounds : List RoundRow) (bets : List BetRow)
    → AllOnRounds rounds bets
    → sum_where (on_rounds rounds) (λ b. b.amount) bets ≡ sum_where every (λ b. b.amount) bets
unfolding sum_where on_rounds
covered rounds [] h = refl
covered rounds (b ∷ bs) h = rw (h.0, covered rounds bs h.1)

-- If no two rounds have the same epoch, every bet is on a round, and every round's stored totals are
-- the sums of its bets, then the total volume that the service reports is the sum of the rounds'
-- stored totals, and it is also the bull volume and the bear volume together.
pub total_volume_rounds :
    (db : Store)
    → Distinct epoch_of db.rounds
    → AllOnRounds db.rounds db.bets
    → All (IsSummed db.bets) db.rounds
    → ((stats_row db).total_volume ≡ sum_where every (λ r. r.total_amount) db.rounds)
      × ((stats_row db).total_volume ≡ (stats_row db).bull_volume + (stats_row db).bear_volume)
unfolding stats_row
total_volume_rounds db distinct on summed =
    (sym (spread db.bets db.rounds distinct summed ∙ covered db.rounds db.bets on), sides db.bets)
