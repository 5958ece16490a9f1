-- ===== src/Web/Positions/Rows.antt =====
-- What MyPredictions shows and claims, against what the contract owes and pays.
use mathlib.Core.List.{reverse}
use ponshot.Base.Every.{
  IsDistinct, drop-IsDistinct, reverse-IsDistinct, filter-IsDistinct, filter_passes, All-map,
}
use ponshot.Base.{
  some_inj, ℕ, ◌+◌, ◌-◌, ◌≤◌, ◌<◌, ◌≡◌, refl, sym, ap, ◌∙◌, Bool, true, ◌||◌, ltb, Bool-cases, inl,
  inr, some, List, [], ◌∷◌, map, sum, filter, slice_last, length, All, arith,
}
use ponshot.Market.Claims
use ponshot.Market.Claims.{Holding, Claimed, claim}
use ponshot.Market.Claims.Paid.{owing, AllOwing, claimable-refundable, claim_pays}
use ponshot.Web.Positions.{
  Wagmi, UserPredictionRow, use_user_predictions, collectable, collectable_total, claim_all,
  claim_request,
}
use ponshot.Web.Positions.Reads.{Serves, row_of, use_user_predictions_latest}

-- Whether the interface offers the epoch for collection.
abbrev pub owes : Holding → ℕ → Bool
owes h e = ltb 0 (Claims.claimable h e) || ltb 0 (Claims.refundable h e)

pub owes-owing : (h : Holding) (e : ℕ) → owes h e ≡ true → 0 < owing h e
owes-owing h e o = ground (arith, claimable-refundable h e, o)

collectable_rows :
    (h : Holding) (epochs : List ℕ)
    → collectable (map (row_of h) epochs) ≡ map (row_of h) (filter (owes h) epochs)
unfolding collectable
collectable_rows h [] = refl
collectable_rows h (e ∷ es) = elim (Bool-cases (owes h e)) [
  | inl hit ↦ rw (filter, hit, collectable_rows h es) refl
  | inr miss ↦ rw (filter, miss, collectable_rows h es) refl
]

epochs_back : (h : Holding) (epochs : List ℕ) → map (λ r. r.epoch) (map (row_of h) epochs) ≡ epochs
epochs_back h [] = refl
epochs_back h (e ∷ es) = ap (λ xs. e ∷ xs) (epochs_back h es)

rows_total :
    (h : Holding) (epochs : List ℕ)
    → sum (map (λ r. r.claimable + r.refundable) (map (row_of h) epochs))
      ≡ sum (map (owing h) epochs)
rows_total h [] = refl
rows_total h (e ∷ es) = omega (arith, claimable-refundable h e, rows_total h es)

request_sent :
    (market : ℕ) (xs epochs : List ℕ) → claim_request (some market) xs ≡ some epochs → xs ≡ epochs
request_sent market [] epochs e = grind (arith, e)
request_sent market (x ∷ xs) epochs e = some_inj e

-- On a market that answers as the contract does, to a wallet whose epochs differ: if the button that
-- claims all sends a call, the contract's books cover what it comes to, and the wallet takes the
-- money, then the call pays the total that stands on the button, takes it off the books, and leaves
-- nothing owing for the epochs that it names.
pub claim_all-claim :
    (w : Wagmi) (market address : ℕ) (h : Holding) (limit : ℕ) (sends : ℕ → Bool)
    (rows : List UserPredictionRow) (epochs : List ℕ)
    → Serves w market address h
    → IsDistinct h.user_epochs
    → use_user_predictions w (some market) (some address) limit ≡ some rows
    → claim_all (some market) rows ≡ some epochs
    → collectable_total rows ≤ h.total_liabilities
    → sends (collectable_total rows) ≡ true
    → (after : Holding) × (claim sends epochs h ≡ Claimed.paid (collectable_total rows) after)
      × (after.total_liabilities ≡ h.total_liabilities - collectable_total rows)
      × All (λ x. owing after x ≡ 0) epochs
unfolding claim_all collectable_total
claim_all-claim w market address h limit sends rows epochs s d read sent covered takes =
    let listed = reverse (slice_last limit h.user_epochs) in
    let named = filter (owes h) listed in
    let shown : rows ≡ map (row_of h) listed =
      some_inj (sym read ∙ use_user_predictions_latest w market address h limit s) in
    let kept : collectable rows ≡ map (row_of h) named =
      ap collectable shown ∙ collectable_rows h listed in
    let same : epochs ≡ named =
      sym (request_sent market _ epochs sent)
      ∙ ap (map (λ r. r.epoch)) kept
      ∙ epochs_back h named in
    let total : collectable_total rows ≡ sum (map (owing h) named) =
      ap (λ xs. sum (map (λ r. r.claimable + r.refundable) xs)) kept ∙ rows_total h named in
    let distinct : IsDistinct named = filter-IsDistinct (owes h) listed (
      reverse-IsDistinct (slice_last limit h.user_epochs)
        (drop-IsDistinct (length h.user_epochs - limit) h.user_epochs d)) in
    let owing_all : AllOwing h named =
      All-map (λ x. owes h x ≡ true) (λ x. 0 < owing h x) named (owes-owing h)
        (filter_passes (owes h) listed) in
    rw (same, total)
      (claim_pays sends named h distinct owing_all (rw total at covered) (rw total at takes))
