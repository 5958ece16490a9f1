-- ===== src/Api/Leaderboard/Totals.antt =====
-- The stakes of the leaderboard against the volume of `/prediction/stats`.
use ponshot.Base.Every.{All-map}
use ponshot.Api.Joins.{Joined, joined_rows, with_rounds, with_claims, on_bet}
use ponshot.Api.Leaderboard.{
  LeaderRow, Window, leader_row, leader_rows, profits_more, account_of, sum_joined,
}
use ponshot.Api.Rounds.{epoch_of}
use ponshot.Api.Sql.{where_rows, group_by, order_by, insert_by}
use ponshot.Api.Sql.Groups.{total_of, total_groups, total_groups-group_by}
use ponshot.Api.Sql.Order.{Distinct}
use ponshot.Api.Stats.{stats_row, every}
use ponshot.Api.Stats.Volume.{AllOnRounds}
use ponshot.Base.{
  ℕ, ◌+◌, ◌≤◌, ◌≡◌, ◌≢◌, refl, ◌∙◌, ap, Bool, true, Bool-cases, inl, inr, List, [], ◌∷◌, ◌++◌, All,
  map, length, any, arith, ◌==◌,
}
use ponshot.Indexer.Store.{Store, RoundRow, BetRow, ClaimRow}
use ponshot.Indexer.Table.{sum_where}

-- What the stakes of leaderboard rows come to.
abbrev pub total_staked : List LeaderRow → ℕ
total_staked [] = 0
total_staked (r ∷ rs) = r.staked + total_staked rs

-- At most one claim for each bet.
abbrev pub AllClaimOnce : List ClaimRow → List BetRow → Type 0
AllClaimOnce claims bets = All (λ b. length (where_rows (on_bet b) claims) ≤ 1) bets

total-insert_by :
    (ahead : LeaderRow → LeaderRow → Bool) (r : LeaderRow) (rs : List LeaderRow)
    → total_staked (insert_by ahead r rs) ≡ r.staked + total_staked rs
unfolding insert_by
total-insert_by ahead r [] = refl
total-insert_by ahead r (x ∷ xs) = elim (Bool-cases (ahead r x)) [
  | inl here ↦ rw here refl
  | inr later ↦ rw later (omega (arith, total-insert_by ahead r xs))
]

total-order_by :
    (ahead : LeaderRow → LeaderRow → Bool) (rs : List LeaderRow)
    → total_staked (order_by ahead rs) ≡ total_staked rs
unfolding order_by
total-order_by ahead [] = refl
total-order_by ahead (r ∷ rs) =
    omega (arith, total-insert_by ahead r (order_by ahead rs), total-order_by ahead rs)

stake : Joined → ℕ
stake j = j.b.amount

sum-total : (js : List Joined) → sum_joined (λ j. j.b.amount) js ≡ total_of account_of stake js
unfolding sum_joined stake
sum-total [] = refl
sum-total (j ∷ js) = omega (arith, sum-total js)

total-groups :
    (gs : List (ℕ × List Joined))
    → total_staked (map leader_row gs) ≡ total_groups account_of stake gs
total-groups [] = refl
total-groups (g ∷ gs) = omega (arith, sum-total g.1, total-groups gs)

total-append :
    (xs ys : List Joined)
    → total_of account_of stake (xs ++ ys)
      ≡ total_of account_of stake xs + total_of account_of stake ys
total-append [] ys = omega arith
total-append (x ∷ xs) ys = omega (arith, total-append xs ys)

no_round :
    (epoch : ℕ) (rounds : List RoundRow)
    → All (λ x. x.epoch ≢ epoch) rounds
    → where_rows (λ r. r.epoch == epoch) rounds ≡ []
unfolding where_rows
no_round epoch [] h = refl
no_round epoch (r ∷ rs) h = ground (arith, h.0, no_round epoch rs h.1)

one_claim :
    (b : BetRow) (r : RoundRow) (claims : List ClaimRow)
    → length claims ≤ 1
    → total_of account_of stake (with_claims b r claims) ≡ b.amount
unfolding stake
one_claim b r [] h = omega arith
one_claim b r (c ∷ []) h = omega arith
one_claim b r (c ∷ d ∷ cs) h = absurd (omega (arith, h))

one_round :
    (b : BetRow) (claims : List ClaimRow) (rounds : List RoundRow)
    → length (where_rows (on_bet b) claims) ≤ 1
    → Distinct epoch_of rounds
    → any (λ r. r.epoch == b.epoch) rounds ≡ true
    → total_of account_of stake (with_rounds b claims (where_rows (λ r. r.epoch == b.epoch) rounds))
      ≡ b.amount
unfolding with_rounds where_rows
one_round b claims [] once d on = grind (arith, on)
one_round b claims (r ∷ rs) once d on = elim (Bool-cases (r.epoch == b.epoch)) [
  | inl hit ↦
      let none_left : where_rows (λ x. x.epoch == b.epoch) rs ≡ [] = no_round b.epoch rs (
        All-map (λ x. x.epoch ≢ r.epoch) (λ x. x.epoch ≢ b.epoch) rs
          (λ x ne. ground (arith, ne, hit)) d.0) in
      rw (hit, none_left)
        (omega (
          arith,
          total-append (with_claims b r (where_rows (on_bet b) claims)) [],
          one_claim b r (where_rows (on_bet b) claims) once,
        ))
  | inr miss ↦ rw miss (one_round b claims rs once d.1 (rw (any, miss) at on))
]

joined-total :
    (bets : List BetRow) (rounds : List RoundRow) (claims : List ClaimRow)
    → Distinct epoch_of rounds
    → AllOnRounds rounds bets
    → AllClaimOnce claims bets
    → total_of account_of stake (joined_rows bets rounds claims)
      ≡ sum_where every (λ b. b.amount) bets
unfolding joined_rows sum_where
joined-total [] rounds claims d on once = refl
joined-total (b ∷ bs) rounds claims d on once =
    total-append (with_rounds b claims (where_rows (λ r. r.epoch == b.epoch) rounds))
      (joined_rows bs rounds claims)
    ∙ omega (
      arith,
      one_round b claims rounds once.0 d on.0,
      joined-total bs rounds claims d on.1 once.1,
    )

where_every : (js : List Joined) → where_rows (λ j. true) js ≡ js
unfolding where_rows
where_every [] = refl
where_every (j ∷ js) = ap (λ l. j ∷ l) (where_every js)

-- If no two rounds have the same epoch, every bet is on a round, and no bet has more than one claim,
-- then the stakes of all wallets on the leaderboard of all time, before its limit, come together to
-- the total volume that `/prediction/stats` reports.
pub leader_rows-total_volume :
    (now : ℕ) (db : Store)
    → Distinct epoch_of db.rounds
    → AllOnRounds db.rounds db.bets
    → AllClaimOnce db.claims db.bets
    → total_staked (leader_rows now Window.all_time db.bets db.rounds db.claims)
      ≡ (stats_row db).total_volume
unfolding leader_rows stats_row
leader_rows-total_volume now db d on once =
    let joined = joined_rows db.bets db.rounds db.claims in
    let groups = group_by account_of (where_rows (λ j. true) joined) in
    total-order_by profits_more (map leader_row groups)
    ∙ total-groups groups
    ∙ total_groups-group_by account_of stake (where_rows (λ j. true) joined)
    ∙ ap (total_of account_of stake) (where_every joined)
    ∙ joined-total db.bets db.rounds db.claims d on once
