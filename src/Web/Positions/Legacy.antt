-- ===== src/Web/Positions/Legacy.antt =====
-- What LegacyClaims shows, against what the former market owes.
use ponshot.Base.Every.{IsDistinct, filter-IsDistinct, drop-IsDistinct}
use ponshot.Base.{
  ℕ, ◌+◌, ◌-◌, ◌≡◌, refl, ap, true, Bool-cases, inl, inr, Option, none, some, List, [], ◌∷◌, ◌++◌,
  map, sum, filter, slice_last, length, take, take-append-drop, arith,
}
use ponshot.Market.Claims.{Holding}
use ponshot.Market.Claims.Paid.{owing, claimable-refundable}
use ponshot.Web.Positions.{Wagmi, LegacyRow, use_legacy_claimable, legacy_panel, is_owed}
use ponshot.Web.Positions.Reads.{Serves, legacy_row_of, use_legacy_claimable_latest}

-- The sum on the panel's button, 0 where there is no panel.
abbrev pub panel_total : Option (ℕ × List ℕ) → ℕ
panel_total none = 0
panel_total (some (total, epochs)) = total

panel_sum :
    (market : ℕ) (rows : List LegacyRow)
    → panel_total (legacy_panel (some market) true (some rows))
      ≡ sum (map (λ r. r.claimable + r.refundable) rows)
unfolding legacy_panel
panel_sum market [] = refl
panel_sum market (r ∷ rs) = refl

-- The rows that are left out owe nothing.
owed_total :
    (h : Holding) (epochs : List ℕ)
    → sum (map (λ r. r.claimable + r.refundable) (filter is_owed (map (legacy_row_of h) epochs)))
      ≡ sum (map (owing h) epochs)
owed_total h [] = refl
owed_total h (e ∷ es) = elim (Bool-cases (is_owed (legacy_row_of h e))) [
  | inl hit ↦ rw (filter, hit) (omega (arith, claimable-refundable h e, owed_total h es))
  | inr miss ↦ rw (filter, miss) (ground (arith, claimable-refundable h e, owed_total h es, miss))
]

sum-append : (f : ℕ → ℕ) (xs ys : List ℕ) → sum (map f (xs ++ ys)) ≡ sum (map f xs) + sum (map f ys)
sum-append f [] ys = omega arith
sum-append f (x ∷ xs) ys = omega (arith, sum-append f xs ys)

-- The epochs that the panel's button claims.
abbrev pub panel_epochs : Option (ℕ × List ℕ) → List ℕ
panel_epochs none = []
panel_epochs (some (total, epochs)) = epochs

panel_named :
    (market : ℕ) (rows : List LegacyRow)
    → panel_epochs (legacy_panel (some market) true (some rows)) ≡ map (λ r. r.epoch) rows
unfolding legacy_panel
panel_named market [] = refl
panel_named market (r ∷ rs) = refl

owed_epochs :
    (h : Holding) (epochs : List ℕ)
    → map (λ r. r.epoch) (filter is_owed (map (legacy_row_of h) epochs))
      ≡ filter (λ e. is_owed (legacy_row_of h e)) epochs
owed_epochs h [] = refl
owed_epochs h (e ∷ es) = elim (Bool-cases (is_owed (legacy_row_of h e))) [
  | inl hit ↦ rw (filter, hit) (ap (λ xs. e ∷ xs) (owed_epochs h es))
  | inr miss ↦ rw (filter, miss) (owed_epochs h es)
]

-- On a former market that answers as the contract does, and that lists none of the wallet's epochs
-- twice, the epochs that the panel's button claims differ, and the sum on it, with what the market
-- owes for the wallet's epochs before the latest ones that the limit admits, is all that it owes the
-- wallet.
pub legacy_panel-owing :
    (w : Wagmi) (market address : ℕ) (h : Holding) (limit : ℕ)
    → IsDistinct h.user_epochs
    → Serves w market address h
    → let shown =
        legacy_panel
          (some market)
          true
          (use_legacy_claimable w (some market) (some address) limit) in
      IsDistinct (panel_epochs shown)
      × (panel_total shown + sum (map (owing h) (take (length h.user_epochs - limit) h.user_epochs))
          ≡ sum (map (owing h) h.user_epochs))
legacy_panel-owing w market address h limit d s =
    let latest = slice_last limit h.user_epochs in
    let earlier = take (length h.user_epochs - limit) h.user_epochs in
    let rows = filter is_owed (map (legacy_row_of h) latest) in
    let whole : sum (map (owing h) (earlier ++ latest)) ≡ sum (map (owing h) h.user_epochs) =
      ap (λ xs. sum (map (owing h) xs))
        (take-append-drop (length h.user_epochs - limit) h.user_epochs) in
    rw (use_legacy_claimable_latest w market address h limit s) (
      rw (panel_named market rows, owed_epochs h latest)
          (filter-IsDistinct (λ e. is_owed (legacy_row_of h e)) latest
            (drop-IsDistinct (length h.user_epochs - limit) h.user_epochs d)),
      omega (
        arith,
        panel_sum market rows,
        owed_total h latest,
        sum-append (owing h) earlier latest,
        whole,
      ),
    )
