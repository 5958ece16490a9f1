-- ===== src/Api/Joins.antt =====
-- `bets b JOIN rounds r … LEFT JOIN claims c …`, as the queries of apps/api/src/index.ts on wallets
-- and on the leaderboard have it.
use ponshot.Base.{◌==◌, ◌&&◌, Bool, Option, none, some, List, [], ◌∷◌, ◌++◌, map}
use ponshot.Api.Sql.{where_rows}
use ponshot.Indexer.Store.{RoundRow, BetRow, ClaimRow}

-- A row of the join: `c` is null where the bet has no claim.
pub record Joined : Type 0 where
  pub b : BetRow
  pub r : RoundRow
  pub c : Option ClaimRow

-- A row for each claim, or one with null if there is none.
abbrev pub with_claims : BetRow → RoundRow → List ClaimRow → List Joined
with_claims b r [] = record { b = b; r = r; c = none } ∷ []
with_claims b r (c ∷ cs) = map (λ x. record { b = b; r = r; c = some x }) (c ∷ cs)

abbrev pub on_bet : BetRow → ClaimRow → Bool
on_bet b c = c.epoch == b.epoch && c.account == b.account

unfoldable pub with_rounds : BetRow → List ClaimRow → List RoundRow → List Joined
unfolding where_rows
with_rounds b claims [] = []
with_rounds b claims (r ∷ rs) =
    with_claims b r (where_rows (on_bet b) claims) ++ with_rounds b claims rs

unfoldable pub joined_rows : List BetRow → List RoundRow → List ClaimRow → List Joined
unfolding where_rows with_rounds
joined_rows [] rounds claims = []
joined_rows (b ∷ bs) rounds claims =
    with_rounds b claims (where_rows (λ r. r.epoch == b.epoch) rounds)
    ++ joined_rows bs rounds claims
