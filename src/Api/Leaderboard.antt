-- ===== src/Api/Leaderboard.antt =====
-- `/leaderboard` of apps/api/src/index.ts, over the rows of the chain that the service serves. A time
-- is a number of seconds, and `now` the time at which PostgreSQL runs the query. `round_bps won
-- decided` is JavaScript's `Math.round((won / decided) * 10_000)`. `inherited` says which names an
-- object has without their being set: for these PostgreSQL refuses the query.
pub mod Ranking
pub mod Accuracy
pub mod Totals
use Prim.Native.Nat.{max}
use ponshot.Api.Joins.{Joined, joined_rows}
use ponshot.Api.Queries.{JsNumber, Reply, limit_of, as_bigint}
use ponshot.Api.Sql.{where_rows, group_by, order_by}
use ponshot.Api.Candles.{key_or}
use ponshot.Api.Stats.{has_outcome, is_settled}
use ponshot.Base.Int.{ℤ, sub_ℕ}
use ponshot.Base.Text.{Text, codes, same_text}
use ponshot.Base.{
  ℕ, zero, suc, ◌+◌, ◌==◌, ◌&&◌, ◌||◌, Bool, true, false, Option, none, some, List, [], ◌∷◌, map,
  take, length, leb, if◌then◌else◌, not,
}
use ponshot.Indexer.Rows.{is_bull, is_claim}
use ponshot.Indexer.Store.{RoundRow, BetRow, ClaimRow, OutcomeName}

-- `WINDOWS`: the seconds of a window, `none` for one without a limit; and whether the name is there.
pub data Window : Type 0 where
  unknown all_time : Window
  last : ℕ → Window

abbrev pub window_of : Text → Window
window_of key =
    if same_text key (codes "24h")
    then Window.last 86400
    else if same_text key (codes "7d")
    then Window.last 604800
    else if same_text key (codes "30d")
    then Window.last 2592000
    else if same_text key (codes "all")
    then Window.all_time
    else Window.unknown

-- `AND b.block_time >= now() - interval '…'`, which a null time does not pass.
abbrev pub since_test : (now : ℕ) → Window → Joined → Bool
since_test now (Window.last seconds) j = elim j.b.block_time [
  | some t ↦ leb now (t + seconds)
  | none ↦ false
]
since_test now _ j = true

-- The columns of the query.
abbrev pub called_right : Joined → Bool
called_right j =
    (has_outcome OutcomeName.bull j.r && is_bull j.b.position)
    || (has_outcome OutcomeName.bear j.r && not (is_bull j.b.position))

abbrev pub was_decided : Joined → Bool
was_decided j =
    is_settled j.r && (has_outcome OutcomeName.bull j.r || has_outcome OutcomeName.bear j.r)

abbrev pub claimed : Joined → ℕ
claimed j = elim j.c [ some c ↦ c.amount | none ↦ 0 ]

abbrev pub claimed_win : Joined → ℕ
claimed_win j = elim j.c [ some c ↦ if is_claim c.kind then c.amount else 0 | none ↦ 0 ]

unfoldable pub count_joined : (Joined → Bool) → List Joined → ℕ
count_joined test [] = 0
count_joined test (j ∷ js) = (if test j then 1 else 0) + count_joined test js

unfoldable pub sum_joined : (Joined → ℕ) → List Joined → ℕ
sum_joined column [] = 0
sum_joined column (j ∷ js) = column j + sum_joined column js

unfoldable pub max_joined : (Joined → ℕ) → List Joined → ℕ
max_joined column [] = 0
max_joined column (j ∷ js) = max (column j) (max_joined column js)

pub record LeaderRow : Type 0 where
  pub account : ℕ
  pub rounds_played : ℕ
  pub rounds_won : ℕ
  pub rounds_decided : ℕ
  pub staked : ℕ
  pub collected : ℕ
  pub biggest_win : ℕ

abbrev pub leader_row : (ℕ × List Joined) → LeaderRow
leader_row (account, js) = record {
  account = account;
  rounds_played = length js;
  rounds_won = count_joined called_right js;
  rounds_decided = count_joined was_decided js;
  staked = sum_joined (λ j. j.b.amount) js;
  collected = sum_joined claimed js;
  biggest_win = max_joined claimed_win js;
}

abbrev pub account_of : Joined → ℕ
account_of j = j.b.account

-- `collected - staked` of one row is at least that of the other.
abbrev pub profits_more : LeaderRow → LeaderRow → Bool
profits_more a b = leb (b.collected + a.staked) (a.collected + b.staked)

-- The rows before `LIMIT`.
unfoldable pub leader_rows :
    (now : ℕ) → Window → List BetRow → List RoundRow → List ClaimRow → List LeaderRow
unfolding where_rows group_by order_by joined_rows count_joined sum_joined max_joined
leader_rows now window bets rounds claims = order_by profits_more (
    map leader_row
      (group_by account_of (where_rows (since_test now window) (joined_rows bets rounds claims))))

pub record Entry : Type 0 where
  pub rank : ℕ
  pub account : ℕ
  pub rounds_played : ℕ
  pub rounds_won : ℕ
  pub rounds_decided : ℕ
  pub accuracy_bps : Option ℕ
  pub staked : ℕ
  pub collected : ℕ
  pub net_profit : ℤ
  pub biggest_win : ℕ

abbrev pub entry_of : (ℕ → ℕ → ℕ) → ℕ → LeaderRow → Entry
entry_of round_bps i r = record {
  rank = i + 1;
  account = r.account;
  rounds_played = r.rounds_played;
  rounds_won = r.rounds_won;
  rounds_decided = r.rounds_decided;
  accuracy_bps =
      if r.rounds_decided == 0 then none else some (round_bps r.rounds_won r.rounds_decided);
  staked = r.staked;
  collected = r.collected;
  net_profit = sub_ℕ r.collected r.staked;
  biggest_win = r.biggest_win;
}

-- `rows.map((r, i) => …)`
unfoldable pub entries_from : (ℕ → ℕ → ℕ) → ℕ → List LeaderRow → List Entry
entries_from round_bps i [] = []
entries_from round_bps i (r ∷ rs) = entry_of round_bps i r ∷ entries_from round_bps (suc i) rs

abbrev pub leaderboard_answer :
    (ℕ → ℕ → ℕ)
    → (Text → JsNumber)
    → (limit : Option Text) → (ℕ → List LeaderRow)
    → Reply (List Entry)
leaderboard_answer round_bps number limit rows = elim (as_bigint (limit_of number limit 25 100)) [
  | none ↦ Reply.refused
  | some n ↦ Reply.reply (entries_from round_bps 0 (rows n))
]

unfoldable pub leaderboard :
    (inherited : Text → Bool)
    → (round_bps : ℕ → ℕ → ℕ) → (Text → JsNumber)
    → (now : ℕ) → (window limit : Option Text) → List BetRow
    → List RoundRow
    → List ClaimRow
    → Reply (List Entry)
unfolding limit_of leader_rows entries_from
leaderboard inherited round_bps number now window limit bets rounds claims =
    let key = key_or window (codes "all") in
    elim (window_of key) [
      | Window.unknown ↦
          if inherited key
          then Reply.refused
          else Reply.failed (codes "invalid window; expected one of 24h, 7d, 30d, all")
      | known ↦
          leaderboard_answer round_bps number limit
            (λ n. take n (leader_rows now known bets rounds claims))
    ]
