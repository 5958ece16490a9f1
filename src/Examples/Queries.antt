-- ===== src/Examples/Queries.antt =====
-- The queries of the API at concrete tables.
use ponshot.Sdk.Types.{Position}
use ponshot.Examples.Indexer.{log_of}
use ponshot.Api.Candles.Bounds.{IsCandle, Ascending, price_candles-IsCandle}
use ponshot.Api.Users.Due.{awaits_claim}
use ponshot.Api.Users.Claimable.{IsOffered, user_claimable-total}
use ponshot.Api.Queries.Limit.{limit_of-bounds}
use ponshot.Base.Int.{pos}
use ponshot.Indexer.Engine.{empty_store}
use ponshot.Indexer.Handlers.Totals.{IsSummed}
use ponshot.Api.Leaderboard.Accuracy.{IsCounted, leaderboard-IsCounted}
use ponshot.Api.Stats.Volume.{AllOnRounds, total_volume_rounds}
use ponshot.Indexer.Table.{sum_where, count_where}
use ponshot.Api.Stats.{stats_row, prediction_stats, every}
use ponshot.Api.Leaderboard.Totals.{total_staked, leader_rows-total_volume}
use ponshot.Api.Leaderboard.{Entry, leaderboard, leader_rows, entries_from, Window}
use ponshot.Api.Leaderboard.Ranking.{Ranked, leaderboard-Ranked}
use ponshot.Api.Candles.{SampleRow, CandlesAnswer, price_candles}
use ponshot.Api.Users.{require_address, ClaimableAnswer, uncollected_epochs, user_claimable}
use mathlib.Core.List.{Perm}
use ponshot.Base.{◌&&◌, if◌then◌else◌, leb, ◌-◌, ◌≤◌, false, ◌*◌, All, ◌/◌, ◌+◌, ◌<◌}
use ponshot.Api.Queries.{Numerals, JsNumber, Reply, limit_of}
use ponshot.Api.Rounds.{RoundView, epoch_of, round_row}
use ponshot.Api.Rounds.Pages.{IsFaithful, walk, walk_complete}
use ponshot.Api.Sql.{order_desc, where_rows}
use ponshot.Api.Sql.Order.{Distinct, Descending}
use ponshot.Base.Text.{Text, codes}
use ponshot.Base.{
  ℕ, ◌≡◌, refl, Bool, Option, none, some, List, [], ◌∷◌, ltb, ◌==◌, map, arith, length,
}
use ponshot.Indexer.Rows.{new_round, set_settled, bet_row, claim_row, set_totals, set_cancelled}
use ponshot.Indexer.Store.{RoundRow, BetRow, Store, OutcomeName, Body, ClaimKind}

-- A number is printed as one character, which is all that the tests need.
abbrev read_digit : Text → Option ℕ
read_digit (c ∷ []) = some c
read_digit _ = none

abbrev digits : Numerals
digits = record {
  print = λ n. n ∷ [];
  less = λ t. elim (read_digit t) [ some n ↦ some (λ e. ltb e n) | none ↦ none ];
  equal = λ t. elim (read_digit t) [ some n ↦ some (λ e. e == n) | none ↦ none ];
}

digits-IsFaithful : IsFaithful digits
digits-IsFaithful = record { print_text = λ n e. grind (arith, e); less_print = λ n. refl }

abbrev parse : Text → JsNumber
parse (c ∷ []) = if leb 48 c && leb c 57 then JsNumber.natural (c - 48) else JsNumber.nan
parse _ = JsNumber.nan

abbrev three_rounds : List RoundRow
three_rounds = new_round 1 10 20 30 ∷ new_round 3 30 40 50 ∷ new_round 2 20 30 40 ∷ []

three_rounds-Distinct : Distinct epoch_of three_rounds
three_rounds-Distinct = ((omega arith, (omega arith, tt)), ((omega arith, tt), (tt, tt)))

-- Two pages of two rounds and one, and the request after them.
walk_complete_example :
    (views : List RoundView) × (walk digits parse (some (codes "2")) three_rounds 4 none
      ≡ some views)
    × Perm views (map round_row three_rounds)
    × Descending (λ v. v.epoch) views
unfolding limit_of
walk_complete_example =
    walk_complete digits parse (some (codes "2")) three_rounds 2 4 digits-IsFaithful refl
      three_rounds-Distinct (omega arith)

walk_test :
    walk digits parse (some (codes "2")) three_rounds 4 none
    ≡ some (map round_row (order_desc epoch_of three_rounds))
unfolding walk
walk_test = refl

limit_test : limit_of parse (some (codes "x")) 50 200 ≡ JsNumber.natural 50
unfolding limit_of
limit_test = refl

limit_bounds_test : (1 ≤ 9) × (9 ≤ 200)
unfolding limit_of
limit_bounds_test =
    limit_of-bounds parse (some (codes "9")) 50 200 9 (omega arith) (omega arith) refl

-- A settled round and a cancelled one, with three bets and a claim.
abbrev bets_made : List BetRow
bets_made =
    bet_row (log_of 2 (Body.bet Position.bull 55 1 40)) Position.bull 55 1 40
    ∷ bet_row (log_of 3 (Body.bet Position.bear 56 1 60)) Position.bear 56 1 60
    ∷ bet_row (log_of 4 (Body.bet Position.bull 56 2 5)) Position.bull 56 2 5
    ∷ []

abbrev two_rounds : List RoundRow
two_rounds =
    set_settled 101 (pos 4) 605 OutcomeName.bull 40 90 10 (set_totals 40 60 (new_round 1 0 300 600))
    ∷ set_cancelled (codes "late") (set_totals 5 0 (new_round 2 300 600 900))
    ∷ []

abbrev market_db : Store
market_db = record empty_store {
  rounds = two_rounds;
  bets = bets_made;
  claims =
      claim_row (log_of 9 (Body.collected ClaimKind.claim 55 1 90)) ClaimKind.claim 55 1 90 ∷ [];
}

market_db-Distinct : Distinct epoch_of market_db.rounds
market_db-Distinct = ((omega arith, tt), (tt, tt))

market_db-AllOnRounds : AllOnRounds market_db.rounds market_db.bets
market_db-AllOnRounds = (refl, (refl, (refl, tt)))

market_db-IsSummed : All (IsSummed market_db.bets) market_db.rounds
unfolding sum_where
market_db-IsSummed = (
  record { bull_right = refl; bear_right = refl; total_right = refl },
  (record { bull_right = refl; bear_right = refl; total_right = refl }, tt),
)

total_volume_rounds_example :
    ((stats_row market_db).total_volume ≡ sum_where every (λ r. r.total_amount) market_db.rounds)
    × ((stats_row market_db).total_volume
        ≡ (stats_row market_db).bull_volume + (stats_row market_db).bear_volume)
total_volume_rounds_example =
    total_volume_rounds market_db market_db-Distinct market_db-AllOnRounds market_db-IsSummed

stats_test : (prediction_stats 1 market_db).row.total_volume ≡ 105
unfolding prediction_stats
stats_test = refl

leader_rows-total_volume_example :
    total_staked (leader_rows 1000 Window.all_time market_db.bets market_db.rounds market_db.claims)
    ≡ (stats_row market_db).total_volume
unfolding where_rows
leader_rows-total_volume_example =
    leader_rows-total_volume 1000 market_db market_db-Distinct market_db-AllOnRounds
      (omega arith, (omega arith, (omega arith, tt)))

abbrev never : Text → Bool
never t = false

abbrev bps_floor : ℕ → ℕ → ℕ
bps_floor won decided = won * 10000 / decided

bps_floor_fair : (won decided : ℕ) → won ≤ decided → 0 < decided → bps_floor won decided ≤ 10000
bps_floor_fair won decided le p = grind arith

abbrev board : List Entry
board =
    entries_from bps_floor 0
      (leader_rows 1000 Window.all_time market_db.bets market_db.rounds market_db.claims)

board_answer :
    leaderboard never bps_floor parse 1000 none none market_db.bets market_db.rounds
      market_db.claims
    ≡ Reply.reply board
unfolding leaderboard
board_answer = refl

leaderboard-Ranked_example : Ranked 0 board × (length board ≤ 100)
leaderboard-Ranked_example =
    leaderboard-Ranked never bps_floor parse 1000 none none market_db.bets market_db.rounds
      market_db.claims board board_answer

leaderboard-IsCounted_test : All IsCounted board
leaderboard-IsCounted_test =
    leaderboard-IsCounted never bps_floor parse 1000 none none market_db.bets market_db.rounds
      market_db.claims board bps_floor_fair ((λ e. refl), ((λ e. e), tt)) board_answer

abbrev prices : List SampleRow
prices =
    record { ts = 610; spot = 7 }
    ∷ record { ts = 650; spot = 9 }
    ∷ record { ts = 905; spot = 8 }
    ∷ record { ts = 620; spot = 4 }
    ∷ []

abbrev chart : CandlesAnswer
chart = record {
  interval = codes "5m";
  bucket_seconds = 300;
  candles =
      record { t = 600; o = 7; h = 9; l = 4; c = 9; samples = 3 }
      ∷ record { t = 900; o = 8; h = 8; l = 8; c = 8; samples = 1 }
      ∷ [];
}

chart_answer : price_candles never parse none none prices ≡ Reply.reply chart
unfolding price_candles
chart_answer = refl

price_candles-IsCandle_example :
    All (IsCandle 300) chart.candles × Ascending chart.candles × (length chart.candles ≤ 500)
price_candles-IsCandle_example =
    price_candles-IsCandle never parse none none prices chart chart_answer

abbrev wallet : Text
wallet = codes "0xABcdef0000000000000000000000000000000055"

abbrev wallet_id : Text → ℕ
wallet_id t = 56

-- A refund of 5 for round 2, and nothing for round 1.
abbrev quoted : ℕ → ℕ × ℕ
quoted epoch = if epoch == 2 then (0, 5) else (0, 0)

wallet_valid : require_address wallet ≡ some (codes "0xabcdef0000000000000000000000000000000055")
unfolding require_address
wallet_valid = refl

user_claimable-total_example :
    (answer : ClaimableAnswer) × (user_claimable wallet_id
        (λ account epoch. some (quoted epoch))
        wallet
        market_db
      ≡ Reply.reply answer)
    × All (IsOffered quoted) answer.entries
    × (answer.total_claimable
        ≡ sum_where (awaits_claim 56 market_db) (λ b. (quoted b.epoch).0) market_db.bets)
    × (answer.total_refundable
        ≡ sum_where (awaits_claim 56 market_db) (λ b. (quoted b.epoch).1) market_db.bets)
unfolding count_where
user_claimable-total_example =
    user_claimable-total wallet_id (λ account epoch. some (quoted epoch)) quoted wallet
      (codes "0xabcdef0000000000000000000000000000000055") market_db wallet_valid (λ epoch. refl)
      market_db-Distinct (omega arith)

claimable_test : uncollected_epochs 56 market_db ≡ 2 ∷ 1 ∷ []
unfolding uncollected_epochs
claimable_test = refl
