-- ===== src/Api/Users.antt =====
-- `/users/:wallet/predictions` and `/users/:wallet/claimable` of apps/api/src/index.ts, over the rows
-- of the chain that the service serves. `account_id` takes the text of a wallet to the number that
-- stands for it in the rows. The market answers `claimable` and `refundable` for an epoch, or `none`
-- where the call fails.
pub mod Due
pub mod Claimable
use ponshot.Api.Joins.{Joined, joined_rows}
use ponshot.Api.Queries.{JsNumber, Reply, limit_of, as_bigint}
use ponshot.Api.Rounds.{is_over}
use ponshot.Api.Sql.{where_rows, order_by, order_desc}
use ponshot.Base.Text.{Text, codes, to_lower}
use ponshot.Base.{
  ℕ, ◌+◌, ◌==◌, ◌&&◌, ◌||◌, Bool, true, false, Option, none, some, List, [], ◌∷◌, map, take, length,
  ltb, leb, if◌then◌else◌, sum,
}
use ponshot.Indexer.Store.{Store, RowStatus, OutcomeName, UserRow, ClaimKind, BetRow}
use ponshot.Sdk.Types.{Position}
use ponshot.Indexer.Table.{find_where}

abbrev pub is_hex : ℕ → Bool
is_hex c = (leb 48 c && leb c 57) || (leb 97 c && leb c 102) || (leb 65 c && leb c 70)

abbrev pub all_hex : Text → Bool
all_hex [] = true
all_hex (c ∷ t) = if is_hex c then all_hex t else false

-- `/^0x[0-9a-fA-F]{40}$/`
abbrev pub is_wallet : Text → Bool
is_wallet (z ∷ x ∷ t) = z == 48 && x == 120 && length t == 40 && all_hex t
is_wallet _ = false

unfoldable pub require_address : Text → Option Text
unfolding to_lower
require_address value = if is_wallet value then some (to_lower value) else none

pub record PredictionRow : Type 0 where
  pub epoch : ℕ
  pub position : Position
  pub amount : ℕ
  pub tx_hash : ℕ
  pub block_time : Option ℕ
  pub status : RowStatus
  pub outcome : Option OutcomeName
  pub lock_price : Option ℕ
  pub close_price : Option ℕ
  pub reward_amount : ℕ
  pub reward_base : ℕ
  pub claimed_amount : Option ℕ
  pub claim_kind : Option ClaimKind

abbrev pub prediction_row : Joined → PredictionRow
prediction_row j = record {
  epoch = j.b.epoch;
  position = j.b.position;
  amount = j.b.amount;
  tx_hash = j.b.tx_hash;
  block_time = j.b.block_time;
  status = j.r.status;
  outcome = j.r.outcome;
  lock_price = j.r.lock_price;
  close_price = j.r.close_price;
  reward_amount = j.r.reward_amount;
  reward_base = j.r.reward_base;
  claimed_amount = elim j.c [ some c ↦ some c.amount | none ↦ none ];
  claim_kind = elim j.c [ some c ↦ some c.kind | none ↦ none ];
}

pub record PredictionsAnswer : Type 0 where
  pub account : Text
  pub summary : Option UserRow
  pub predictions : List PredictionRow

abbrev pub joined_epoch : Joined → ℕ
joined_epoch j = j.b.epoch

unfoldable pub user_predictions :
    (account_id : Text → ℕ)
    → (Text → JsNumber)
    → (wallet : Text) → (limit : Option Text) → Store
    → Reply PredictionsAnswer
unfolding where_rows order_by joined_rows limit_of require_address find_where
user_predictions account_id number wallet limit db = elim (require_address wallet) [
  | none ↦ Reply.failed (codes "invalid wallet address")
  | some account ↦ elim (as_bigint (limit_of number limit 50 200)) [
    | none ↦ Reply.refused
    | some n ↦ Reply.reply (record {
      account = account;
      summary = find_where (λ u. u.account == account_id account) db.users;
      predictions = map prediction_row (
          take n (
            order_desc joined_epoch (
              where_rows (λ j. j.b.account == account_id account)
                (joined_rows db.bets db.rounds db.claims))));
    })
  ]
]

pub record ClaimEntry : Type 0 where
  pub epoch : ℕ
  pub claimable : ℕ
  pub refundable : ℕ

pub record ClaimableAnswer : Type 0 where
  pub account : Text
  pub epochs : List ℕ
  pub entries : List ClaimEntry
  pub total_claimable : ℕ
  pub total_refundable : ℕ

-- `c.epoch IS NULL AND r.status IN ('SETTLED','CANCELLED')`, for one wallet.
abbrev pub uncollected : ℕ → Joined → Bool
uncollected account j =
    j.b.account == account && elim j.c [ none ↦ true | some c ↦ false ] && is_over j.r

unfoldable pub uncollected_epochs : ℕ → Store → List ℕ
unfolding where_rows order_by joined_rows
uncollected_epochs account db = map joined_epoch (
    take 200 (
      order_desc joined_epoch
        (where_rows (uncollected account) (joined_rows db.bets db.rounds db.claims))))

-- The entries of the epochs, unless a call of the market fails.
unfoldable pub read_entries : (ℕ → Option (ℕ × ℕ)) → List ℕ → Option (List ClaimEntry)
read_entries market [] = some []
read_entries market (epoch ∷ epochs) = elim (market epoch) [
  | none ↦ none
  | some (won, back) ↦ elim (read_entries market epochs) [
    | none ↦ none
    | some entries ↦ some (record { epoch = epoch; claimable = won; refundable = back } ∷ entries)
  ]
]

abbrev pub is_actionable : ClaimEntry → Bool
is_actionable x = ltb 0 x.claimable || ltb 0 x.refundable

unfoldable pub claimable_answer : Text → List ClaimEntry → ClaimableAnswer
unfolding where_rows
claimable_answer account entries =
    let actionable = where_rows is_actionable entries in
    record {
      account = account;
      epochs = map (λ x. x.epoch) actionable;
      entries = actionable;
      total_claimable = sum (map (λ x. x.claimable) actionable);
      total_refundable = sum (map (λ x. x.refundable) actionable);
    }

unfoldable pub user_claimable :
    (account_id : Text → ℕ)
    → (market : ℕ → ℕ → Option (ℕ × ℕ)) → (wallet : Text) → Store
    → Reply ClaimableAnswer
unfolding require_address uncollected_epochs read_entries claimable_answer
user_claimable account_id market wallet db = elim (require_address wallet) [
  | none ↦ Reply.failed (codes "invalid wallet address")
  | some account ↦
      elim (read_entries (market (account_id account))
        (uncollected_epochs (account_id account) db)) [
          | none ↦ Reply.refused
          | some entries ↦ Reply.reply (claimable_answer account entries)
        ]
]
