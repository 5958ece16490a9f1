-- ===== src/Api/Leaderboard/Accuracy.antt =====
-- The counts of the leaderboard.
use mathlib.Core.Path.{subst}
use ponshot.Base.Every.{append-All, take-All}
use ponshot.Api.Joins.{Joined, joined_rows, with_rounds, with_claims, on_bet}
use ponshot.Api.Leaderboard.{
  LeaderRow, Entry, Window, since_test, leader_row, leader_rows, leaderboard, profits_more,
  account_of, called_right, was_decided, count_joined, entry_of,
}
use ponshot.Api.Leaderboard.Ranking.{entries-All, leaderboard_answered}
use ponshot.Api.Queries.{JsNumber, Reply}
use ponshot.Api.Sql.{where_rows, group_by}
use ponshot.Api.Sql.Groups.{group_by-rows}
use ponshot.Api.Sql.Sorted.{where-All, order_by-All}
use ponshot.Api.Stats.{has_outcome, is_settled}
use ponshot.Base.Text.{Text}
use ponshot.Base.{
  if◌then◌else◌, ℕ, zero, suc, ◌≤◌, ◌<◌, ◌≡◌, refl, Bool, true, false, Option, none, some, List, [],
  ◌∷◌, All, map, take, length, arith, ◌==◌, ◌||◌, ◌&&◌, not, ◌↔◌,
}
use ponshot.Indexer.Rows.{is_bull}
use ponshot.Indexer.Store.{RoundRow, BetRow, ClaimRow, OutcomeName}

-- A round has a winning side only where it is settled.
abbrev pub SettledOnWin : RoundRow → Type 0
SettledOnWin r =
    (has_outcome OutcomeName.bull r || has_outcome OutcomeName.bear r) ≡ true → is_settled r ≡ true

abbrev FineJoined : Joined → Type 0
FineJoined j = SettledOnWin j.r

call_le :
    (bull bear settled on_bull : Bool)
    → ((bull || bear) ≡ true → settled ≡ true)
    → (if (bull && on_bull) || (bear && not on_bull) then 1 else 0)
      ≤ (if settled && (bull || bear) then 1 else 0)
call_le bull bear true on_bull h = ground arith
call_le false false false on_bull h = ground arith
call_le true bear false on_bull h = grind (arith, h refl)
call_le false true false on_bull h = grind (arith, h refl)

counts_le :
    (js : List Joined)
    → All FineJoined js
    → (count_joined called_right js ≤ count_joined was_decided js)
      × (count_joined was_decided js ≤ length js)
unfolding count_joined
counts_le [] h = (omega arith, omega arith)
counts_le (j ∷ js) h =
    let one =
      call_le (has_outcome OutcomeName.bull j.r) (has_outcome OutcomeName.bear j.r) (is_settled j.r)
        (is_bull j.b.position) h.0 in
    let (won, decided) = counts_le js h.1 in (omega (arith, one, won), ground (arith, decided))

with_claims-All :
    (b : BetRow) (r : RoundRow) (claims : List ClaimRow)
    → SettledOnWin r
    → All FineJoined (with_claims b r claims)
with_claims-All b r [] h = (h, tt)
with_claims-All b r (c ∷ cs) h = (h, more cs)
  where
    more : (ds : List ClaimRow) → All FineJoined (map (λ x. record { b = b; r = r; c = some x }) ds)
    more [] = tt
    more (d ∷ ds) = (h, more ds)

with_rounds-All :
    (b : BetRow) (claims : List ClaimRow) (rounds : List RoundRow)
    → All SettledOnWin rounds
    → All FineJoined (with_rounds b claims rounds)
unfolding with_rounds
with_rounds-All b claims [] h = tt
with_rounds-All b claims (r ∷ rs) h =
    append-All FineJoined _ _ (with_claims-All b r (where_rows (on_bet b) claims) h.0)
      (with_rounds-All b claims rs h.1)

joined-All :
    (bets : List BetRow) (rounds : List RoundRow) (claims : List ClaimRow)
    → All SettledOnWin rounds
    → All FineJoined (joined_rows bets rounds claims)
unfolding joined_rows
joined-All [] rounds claims h = tt
joined-All (b ∷ bs) rounds claims h =
    append-All FineJoined _ _
      (with_rounds-All b claims (where_rows (λ r. r.epoch == b.epoch) rounds)
        (where-All SettledOnWin (λ r. r.epoch == b.epoch) rounds h))
      (joined-All bs rounds claims h)

-- What the counts of a row are to each other.
abbrev Counted : LeaderRow → Type 0
Counted r = (r.rounds_won ≤ r.rounds_decided) × (r.rounds_decided ≤ r.rounds_played)

rows-Counted :
    (gs : List (ℕ × List Joined))
    → All (λ g. All FineJoined g.1) gs
    → All Counted (map leader_row gs)
rows-Counted [] h = tt
rows-Counted (g ∷ gs) h = (counts_le g.1 h.0, rows-Counted gs h.1)

leader_rows-Counted :
    (now : ℕ) (w : Window) (bets : List BetRow) (rounds : List RoundRow) (claims : List ClaimRow)
    → All SettledOnWin rounds
    → All Counted (leader_rows now w bets rounds claims)
unfolding leader_rows
leader_rows-Counted now w bets rounds claims h =
    let joined = joined_rows bets rounds claims in
    let rows = where_rows (since_test now w) joined in
    order_by-All profits_more Counted (map leader_row (group_by account_of rows)) (
      rows-Counted (group_by account_of rows) (
        group_by-rows account_of FineJoined rows
          (where-All FineJoined (since_test now w) joined (joined-All bets rounds claims h))))

-- An entry's counts, and an accuracy of at most 10,000 basis points, which is there exactly where a
-- round was decided.
pub record IsCounted (x : Entry) : Type 0 where
  pub won_decided : x.rounds_won ≤ x.rounds_decided
  pub decided_played : x.rounds_decided ≤ x.rounds_played
  pub absent : (x.accuracy_bps ≡ none) ↔ (x.rounds_decided ≡ 0)
  pub within : (bps : ℕ) → x.accuracy_bps ≡ some bps → bps ≤ 10000

accuracy_absent :
    (decided bps : ℕ) → ((if decided == 0 then none else some bps) ≡ none) ↔ (decided ≡ 0)
accuracy_absent zero bps = (λ e. refl, λ e. refl)
accuracy_absent (suc n) bps = (λ e. grind (arith, e), λ e. absurd (omega (arith, e)))

accuracy_within :
    (decided bps limit x : ℕ)
    → (0 < decided → bps ≤ limit)
    → (if decided == 0 then none else some bps) ≡ some x
    → x ≤ limit
accuracy_within zero bps limit x h e = grind (arith, e)
accuracy_within (suc n) bps limit x h e = grind (arith, e, h (omega arith))

entry_of-IsCounted :
    (round_bps : ℕ → ℕ → ℕ)
    → ((won decided : ℕ) → won ≤ decided → 0 < decided → round_bps won decided ≤ 10000)
    → (i : ℕ) (r : LeaderRow) → Counted r
    → IsCounted (entry_of round_bps i r)
entry_of-IsCounted round_bps fair i r h = record {
  won_decided = h.0;
  decided_played = h.1;
  absent = accuracy_absent r.rounds_decided (round_bps r.rounds_won r.rounds_decided);
  within = λ bps e.
      accuracy_within r.rounds_decided (round_bps r.rounds_won r.rounds_decided) 10000 bps
        (fair r.rounds_won r.rounds_decided h.0) e;
}

-- If only a settled round has a winning side, and a ratio of at most one rounds to at most 10,000
-- basis points, then in every answer of the handler an entry has called no more rounds right than
-- were decided, which are no more than it played; its accuracy is null exactly where no round was
-- decided, and is at most 10,000 basis points.
pub leaderboard-IsCounted :
    (inherited : Text → Bool) (round_bps : ℕ → ℕ → ℕ) (number : Text → JsNumber) (now : ℕ)
    (window limit : Option Text) (bets : List BetRow) (rounds : List RoundRow)
    (claims : List ClaimRow) (entries : List Entry)
    → ((won decided : ℕ) → won ≤ decided → 0 < decided → round_bps won decided ≤ 10000)
    → All SettledOnWin rounds
    → leaderboard inherited round_bps number now window limit bets rounds claims
      ≡ Reply.reply entries
    → All IsCounted entries
leaderboard-IsCounted inherited round_bps number now window limit bets rounds claims entries fair h
      e =
    let (w, n, small, same) =
      leaderboard_answered inherited round_bps number now window limit bets rounds claims entries
        e in
    let rows = leader_rows now w bets rounds claims in
    subst (All IsCounted) same (
      entries-All IsCounted Counted round_bps 0 (take n rows) (entry_of-IsCounted round_bps fair)
        (take-All Counted n rows (leader_rows-Counted now w bets rounds claims h)))
