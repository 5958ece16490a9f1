-- ===== src/Api/Leaderboard/Ranking.antt =====
-- The order of the leaderboard.
use ponshot.Api.Queries.Limit.{limit_of-bounds}
use mathlib.Core.Path.{subst}
use ponshot.Api.Candles.{key_or}
use ponshot.Base.Text.{Text, codes}
use ponshot.Api.Joins.{Joined, joined_rows}
use ponshot.Api.Leaderboard.{
  LeaderRow, Entry, Window, since_test, leader_row, leader_rows, entry_of, entries_from,
  profits_more, account_of, leaderboard, leaderboard_answer, window_of,
}
use ponshot.Api.Queries.{Reply, JsNumber, as_bigint, limit_of}
use ponshot.Api.Sql.{where_rows, group_by, order_by}
use ponshot.Api.Sql.Groups.{group_key, group_by-Distinct, order_by-Distinct, take-Distinct}
use ponshot.Api.Sql.Order.{Distinct}
use ponshot.Api.Sql.Sorted.{InOrder, take-InOrder, order_by-InOrder}
use ponshot.Base.Int.{sub_ℕ}
use ponshot.Base.{
  ℕ, zero, suc, ◌+◌, ◌≤◌, ◌≡◌, ◌≢◌, refl, true, List, [], ◌∷◌, All, map, take, length, arith, Bool,
  Option, Option-cases, Bool-cases, inl, inr,
}
use ponshot.Indexer.Store.{RoundRow, BetRow, ClaimRow}

-- Entries from rank `i + 1` on: the ranks count up, the profit of an entry is what it collected less
-- what it staked, no later entry has a greater one, and no account comes twice.
abbrev pub Ranked : ℕ → List Entry → Type 0
Ranked i [] = Unit
Ranked i (x ∷ xs) =
    (x.rank ≡ i + 1)
    × (x.net_profit ≡ sub_ℕ x.collected x.staked)
    × All (λ y. y.collected + x.staked ≤ x.collected + y.staked) xs
    × All (λ y. y.account ≢ x.account) xs
    × Ranked (suc i) xs

abbrev leader_account : LeaderRow → ℕ
leader_account r = r.account

pub entries-All :
    (P : Entry → Type 0) (Q : LeaderRow → Type 0) (round_bps : ℕ → ℕ → ℕ) (i : ℕ)
    (rs : List LeaderRow)
    → ((k : ℕ) (r : LeaderRow) → Q r → P (entry_of round_bps k r))
    → All Q rs
    → All P (entries_from round_bps i rs)
unfolding entries_from
entries-All P Q round_bps i [] keep h = tt
entries-All P Q round_bps i (r ∷ rs) keep h =
    (keep i r h.0, entries-All P Q round_bps (suc i) rs keep h.1)

entries-Ranked :
    (round_bps : ℕ → ℕ → ℕ) (i : ℕ) (rs : List LeaderRow)
    → InOrder profits_more rs
    → Distinct leader_account rs
    → Ranked i (entries_from round_bps i rs)
unfolding entries_from
entries-Ranked round_bps i [] o d = tt
entries-Ranked round_bps i (r ∷ rs) o d = (
  refl,
  refl,
  entries-All (λ y. y.collected + r.staked ≤ r.collected + y.staked) (λ x. profits_more r x ≡ true)
      round_bps (suc i) rs (λ k x p. ground arith) o.0,
  entries-All (λ y. y.account ≢ r.account) (λ x. x.account ≢ r.account) round_bps (suc i) rs
      (λ k x p. p) d.0,
  entries-Ranked round_bps (suc i) rs o.1 d.1,
)

rows-Distinct :
    (gs : List (ℕ × List Joined))
    → Distinct group_key gs
    → Distinct leader_account (map leader_row gs)
rows-Distinct [] d = tt
rows-Distinct (g ∷ gs) d = (apart gs d.0, rows-Distinct gs d.1)
  where
    apart :
        (others : List (ℕ × List Joined))
        → All (λ x. x.0 ≢ g.0) others
        → All (λ x. x.account ≢ g.0) (map leader_row others)
    apart [] h = tt
    apart (x ∷ xs) h = (h.0, apart xs h.1)

length-entries :
    (round_bps : ℕ → ℕ → ℕ) (i n : ℕ) (rs : List LeaderRow)
    → length (entries_from round_bps i (take n rs)) ≤ n
unfolding entries_from
length-entries round_bps i zero rs = omega arith
length-entries round_bps i (suc n) [] = omega arith
length-entries round_bps i (suc n) (r ∷ rs) = omega (arith, length-entries round_bps (suc i) n rs)

abbrev IsRanking : List Entry → Type 0
IsRanking entries = Ranked 0 entries × (length entries ≤ 100)

ranked_rows :
    (round_bps : ℕ → ℕ → ℕ) (now : ℕ) (window : Window) (bets : List BetRow)
    (rounds : List RoundRow) (claims : List ClaimRow) (n : ℕ)
    → n ≤ 100
    → IsRanking (entries_from round_bps 0 (take n (leader_rows now window bets rounds claims)))
unfolding leader_rows
ranked_rows round_bps now window bets rounds claims n small =
    let rows =
      map leader_row (
        group_by account_of
          (where_rows (since_test now window) (joined_rows bets rounds claims))) in
    let groups =
      group_by-Distinct account_of
        (where_rows (since_test now window) (joined_rows bets rounds claims)) in
    (
      entries-Ranked round_bps 0 (take n (order_by profits_more rows))
          (take-InOrder profits_more n (order_by profits_more rows) (
            order_by-InOrder profits_more (λ x y p. ground arith) (λ x y z p q. ground arith) rows))
          (take-Distinct leader_account n (order_by profits_more rows)
            (order_by-Distinct leader_account profits_more rows (rows-Distinct _ groups))),
      omega (arith, length-entries round_bps 0 n (order_by profits_more rows), small),
    )

reply_inj : {x y : List Entry} → Reply.reply x ≡ Reply.reply y → x ≡ y
reply_inj e = cc

answered :
    (round_bps : ℕ → ℕ → ℕ) (number : Text → JsNumber) (limit : Option Text)
    (rows : ℕ → List LeaderRow) (entries : List Entry)
    → leaderboard_answer round_bps number limit rows ≡ Reply.reply entries
    → (n : ℕ) × (n ≤ 100) × (entries_from round_bps 0 (rows n) ≡ entries)
answered round_bps number limit rows entries e =
    elim (Option-cases (as_bigint (limit_of number limit 25 100))) [
      | inl broken ↦ grind (arith, rw (leaderboard_answer, broken) at e)
      | inr (n, whole) ↦ (
        n,
        (limit_of-bounds number limit 25 100 n (omega arith) (omega arith) whole).1,
        reply_inj (rw (leaderboard_answer, whole) at e),
      )
    ]

-- An answer shows the first rows of the query for some window and some limit of at most 100.
pub leaderboard_answered :
    (inherited : Text → Bool) (round_bps : ℕ → ℕ → ℕ) (number : Text → JsNumber) (now : ℕ)
    (window limit : Option Text) (bets : List BetRow) (rounds : List RoundRow)
    (claims : List ClaimRow) (entries : List Entry)
    → leaderboard inherited round_bps number now window limit bets rounds claims
      ≡ Reply.reply entries
    → (w : Window) × (n : ℕ) × (n ≤ 100)
      × (entries_from round_bps 0 (take n (leader_rows now w bets rounds claims)) ≡ entries)
unfolding leaderboard
leaderboard_answered inherited round_bps number now window limit bets rounds claims entries e =
    at_window (window_of (key_or window (codes "all"))) refl
  where
    at_window :
        (w : Window)
        → window_of (key_or window (codes "all")) ≡ w
        → (w : Window) × (n : ℕ) × (n ≤ 100)
          × (entries_from round_bps 0 (take n (leader_rows now w bets rounds claims)) ≡ entries)
    at_window Window.unknown known = elim (Bool-cases (inherited (key_or window (codes "all")))) [
      | inl odd ↦ grind (arith, rw (leaderboard, known, odd) at e)
      | inr plain ↦ grind (arith, rw (leaderboard, known, plain) at e)
    ]
    at_window Window.all_time known =
        let (n, small, same) =
          answered round_bps number limit _ entries (rw (leaderboard, known) at e) in
        (Window.all_time, n, small, same)
    at_window (Window.last seconds) known =
        let (n, small, same) =
          answered round_bps number limit _ entries (rw (leaderboard, known) at e) in
        (Window.last seconds, n, small, same)

-- For every answer of the handler, whatever the rows and the query are: the ranks of the entries count
-- up from 1, the net profit of each is what it collected less what it staked, no entry comes before
-- one with a greater profit, no account comes twice, and there are at most 100 entries.
pub leaderboard-Ranked :
    (inherited : Text → Bool) (round_bps : ℕ → ℕ → ℕ) (number : Text → JsNumber) (now : ℕ)
    (window limit : Option Text) (bets : List BetRow) (rounds : List RoundRow)
    (claims : List ClaimRow) (entries : List Entry)
    → leaderboard inherited round_bps number now window limit bets rounds claims
      ≡ Reply.reply entries
    → Ranked 0 entries × (length entries ≤ 100)
leaderboard-Ranked inherited round_bps number now window limit bets rounds claims entries e =
    let (w, n, small, same) =
      leaderboard_answered inherited round_bps number now window limit bets rounds claims entries
        e in
    subst IsRanking same (ranked_rows round_bps now w bets rounds claims n small)
