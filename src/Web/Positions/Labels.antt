-- ===== src/Web/Positions/Labels.antt =====
-- The cells of a row of MyPredictions, against what the contract owes for its epoch.
use ponshot.Base.{ℕ, ◌≡◌, ◌≢◌, ap, ◌∙◌, false, if◌then◌else◌, ltb, ◌==◌, arith, not, Bool}
use ponshot.Sdk.Types.{Round, UserRoundStatus, Outcome}
use ponshot.Sdk.Payout.{is_cancellable}
use ponshot.Sdk.Exact.{label_of, user_round_status-entitlement}
use ponshot.Market.Settlement.{try_settle}
use ponshot.Market.Claims.{Holding, entitled}
use ponshot.Market.Claims.Paid.{owing, claimable-refundable}
use ponshot.Web.Positions.{PayoutCell, cells, is_claimed}
use ponshot.Web.Positions.Reads.{row_of}

-- The round of an epoch is one that the contract settled, which held no reward before.
pub record IsSettled (h : Holding) (epoch : ℕ) (r : Round) (bps price : ℕ) : Type 0 where
  pub same_round : h.rounds epoch ≡ (try_settle r bps price).round
  pub same_outcome : (h.terms epoch).outcome ≡ (try_settle r bps price).outcome
  pub unrewarded : r.reward_base_amount ≡ 0

status_label :
    (h : Holding) (epoch : ℕ) (r : Round) (bps price : ℕ)
    → IsSettled h epoch r bps price
    → (h.ledger epoch).amount ≢ 0
    → (h.ledger epoch).claimed ≡ false
    → is_cancellable (h.phase epoch) ≡ false
    → (cells (row_of h epoch)).status ≡ label_of (entitled h epoch)
unfolding cells
status_label h epoch r bps price s amount open_bet phase =
    rw (s.same_round, s.same_outcome)
      (user_round_status-entitlement r bps price (h.ledger epoch) Outcome.undecided (h.phase epoch)
        s.unrewarded amount open_bet phase).0

label_of_open : (grant : Bool × ℕ) → is_claimed (label_of grant) ≡ false
label_of_open (won, amount) = ground arith

button : (owed : ℕ) → ltb 0 owed ≡ not (owed == 0)
button owed = ground arith

payout_cell :
    (owed : ℕ) (status : UserRoundStatus)
    → is_claimed status ≡ false
    → (if ltb 0 owed
        then PayoutCell.payout owed
        else if is_claimed status
        then PayoutCell.was_collected
        else PayoutCell.dash)
      ≡ (if owed == 0 then PayoutCell.dash else PayoutCell.payout owed)
payout_cell owed status c = ground (arith, c)

-- The row of a bet that is not collected, in a round that the contract settled, and in no phase in
-- which it can be cancelled: its label is the one that fits what the contract grants, its payout is
-- what the contract owes, or a dash for nothing, and it has a button just if something is owed.
pub cells-label_of :
    (h : Holding) (epoch : ℕ) (r : Round) (bps price : ℕ)
    → IsSettled h epoch r bps price
    → (h.ledger epoch).amount ≢ 0
    → (h.ledger epoch).claimed ≡ false
    → is_cancellable (h.phase epoch) ≡ false
    → let row = cells (row_of h epoch) in
      (row.status ≡ label_of (entitled h epoch))
      × (row.payout
          ≡ (if owing h epoch == 0 then PayoutCell.dash else PayoutCell.payout (owing h epoch)))
      × (row.can_claim ≡ not (owing h epoch == 0))
unfolding cells
cells-label_of h epoch r bps price s amount open_bet phase =
    let label = status_label h epoch r bps price s amount open_bet phase in
    let owed = claimable-refundable h epoch in
    (
      label,
      rw (cells, owed)
          (payout_cell (owing h epoch) (cells (row_of h epoch)).status
            (ap is_claimed label ∙ label_of_open (entitled h epoch))),
      rw (cells, owed) (button (owing h epoch)),
    )
