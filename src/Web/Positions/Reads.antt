-- ===== src/Web/Positions/Reads.antt =====
-- What the two hooks read of a market that answers as the contract does.
use mathlib.Core.List.{append_assoc, reverse}
use ponshot.Base.{
  ℕ, zero, suc, ◌+◌, ◌-◌, ◌*◌, ◌==◌, ◌≡◌, ◌≤◌, refl, sym, ap, ◌∙◌, true, none, some, List, [], ◌∷◌,
  ◌++◌, map, length, drop, take_long, length-drop, slice_last, arith, leb, ltb, if◌then◌else◌,
  get_elem?-append, length-append, Bool-cases, inl, inr, filter,
}
use ponshot.Market.Claims
use ponshot.Market.Claims.{Holding, get_user_epochs}
use ponshot.Web.Positions.{
  ContractRead, ReadResult, Wagmi, UserPredictionRow, LegacyRow, prediction_calls, legacy_calls,
  latest_page, rows_from, row_at, legacy_row, use_user_predictions, use_legacy_claimable, is_owed,
}

-- The contract's answers about the wallet.
abbrev pub answer : Holding → ContractRead → ReadResult
answer h (ContractRead.get_round e) = ReadResult.a_round (h.rounds e)
answer h (ContractRead.get_round_terms e) = ReadResult.a_terms (h.terms e)
answer h (ContractRead.phase_of e) = ReadResult.a_phase (h.phase e)
answer h (ContractRead.get_bet e a) = ReadResult.a_bet (h.ledger e)
answer h (ContractRead.claimable e a) = ReadResult.an_amount (Claims.claimable h e)
answer h (ContractRead.refundable e a) = ReadResult.an_amount (Claims.refundable h e)

-- A market that can be read, and answers about the wallet at the address by what it holds: a page
-- as the contract computes it, and the entries of a multicall in their order.
pub record Serves (w : Wagmi) (market address : ℕ) (h : Holding) : Type 0 where
  pub pages :
      (offset limit : ℕ)
      → w.user_epochs market address offset limit ≡ some (get_user_epochs h offset limit)
  pub predictions :
      (epochs : List ℕ)
      → w.multicall market (prediction_calls address epochs)
        ≡ some (map (answer h) (prediction_calls address epochs))
  pub legacies :
      (epochs : List ℕ)
      → w.multicall market (legacy_calls address epochs)
        ≡ some (map (answer h) (legacy_calls address epochs))

-- The row that the contract's state gives for an epoch.
abbrev pub row_of : Holding → ℕ → UserPredictionRow
row_of h e = record {
  epoch = e;
  round = h.rounds e;
  terms = h.terms e;
  bet = h.ledger e;
  phase = h.phase e;
  claimable = Claims.claimable h e;
  refundable = Claims.refundable h e;
}

abbrev pub legacy_row_of : Holding → ℕ → LegacyRow
legacy_row_of h e = record {
  epoch = e;
  claimable = Claims.claimable h e;
  refundable = Claims.refundable h e;
}

drop_all : (n : ℕ) (xs : List ℕ) → length xs ≤ n → drop n xs ≡ []
drop_all zero [] l = refl
drop_all (suc n) [] l = refl
drop_all zero (x ∷ xs) l = absurd (omega (arith, l))
drop_all (suc n) (x ∷ xs) l = drop_all n xs (omega (arith, l))

page_fits :
    (count limit : ℕ)
    → let left = count - (count - limit) in left ≤ (if ltb limit left then limit else left)
page_fits count limit = ground arith

page_total :
    (h : Holding) (offset limit : ℕ) → (get_user_epochs h offset limit).1 ≡ length h.user_epochs
unfolding get_user_epochs
page_total h offset limit = ground arith

-- The page at the offset that the hooks compute is the end of the list.
page_latest :
    (h : Holding) (limit : ℕ)
    → (get_user_epochs h (length h.user_epochs - limit) limit).0 ≡ slice_last limit h.user_epochs
unfolding get_user_epochs
page_latest h limit =
    let count = length h.user_epochs in
    let offset = count - limit in
    let left = count - offset in
    let n = if ltb limit left then limit else left in
    let all_left : length (drop offset h.user_epochs) ≤ n =
      rw (length-drop offset h.user_epochs) (page_fits count limit) in
    elim (Bool-cases (leb count offset)) [
      | inl past ↦ rw past (sym (drop_all offset h.user_epochs (ground (arith, past))))
      | inr within ↦ rw within (take_long n (drop offset h.user_epochs) all_left)
    ]

prediction_row_at :
    (h : Holding) (address i epoch : ℕ) (before : List ReadResult) (rest : List ReadResult)
    → length before ≡ i * 6
    → row_at (before ++ (map (answer h) (prediction_calls address (epoch ∷ [])) ++ rest)) i epoch
      ≡ some (row_of h epoch)
prediction_row_at h address i epoch before rest l =
    let at : (k : ℕ) → _ =
      get_elem?-append before (map (answer h) (prediction_calls address (epoch ∷ [])) ++ rest) in
    rw (← l, at 0, at 1, at 2, at 3, at 4, at 5) refl

legacy_row_at :
    (h : Holding) (address i epoch : ℕ) (before : List ReadResult) (rest : List ReadResult)
    → length before ≡ i * 2
    → legacy_row (before ++ (map (answer h) (legacy_calls address (epoch ∷ [])) ++ rest)) i epoch
      ≡ some (legacy_row_of h epoch)
legacy_row_at h address i epoch before rest l =
    let at : (k : ℕ) → _ =
      get_elem?-append before (map (answer h) (legacy_calls address (epoch ∷ [])) ++ rest) in
    rw (← l, at 0, at 1) refl

prediction_rows :
    (h : Holding) (address i : ℕ) (before results : List ReadResult) (epochs : List ℕ)
    → length before ≡ i * 6
    → results ≡ before ++ map (answer h) (prediction_calls address epochs)
    → rows_from (row_at results) i epochs ≡ some (map (row_of h) epochs)
unfolding rows_from
prediction_rows h address i before results [] l s = refl
prediction_rows h address i before results (e ∷ es) l s =
    let own = map (answer h) (prediction_calls address (e ∷ [])) in
    let rest = map (answer h) (prediction_calls address es) in
    let longer : length (before ++ own) ≡ (i + 1) * 6 = omega (arith, length-append before own) in
    let first : row_at results i e ≡ some (row_of h e) =
      ap (λ xs. row_at xs i e) s ∙ prediction_row_at h address i e before rest l in
    rw
      (
        first,
        prediction_rows h address (i + 1) (before ++ own) results es longer
            (s ∙ sym (append_assoc before own rest)),
      )
      refl

legacy_rows :
    (h : Holding) (address i : ℕ) (before results : List ReadResult) (epochs : List ℕ)
    → length before ≡ i * 2
    → results ≡ before ++ map (answer h) (legacy_calls address epochs)
    → rows_from (legacy_row results) i epochs ≡ some (map (legacy_row_of h) epochs)
unfolding rows_from
legacy_rows h address i before results [] l s = refl
legacy_rows h address i before results (e ∷ es) l s =
    let own = map (answer h) (legacy_calls address (e ∷ [])) in
    let rest = map (answer h) (legacy_calls address es) in
    let longer : length (before ++ own) ≡ (i + 1) * 2 = omega (arith, length-append before own) in
    let first : legacy_row results i e ≡ some (legacy_row_of h e) =
      ap (λ xs. legacy_row xs i e) s ∙ legacy_row_at h address i e before rest l in
    rw
      (
        first,
        legacy_rows h address (i + 1) (before ++ own) results es longer
            (s ∙ sym (append_assoc before own rest)),
      )
      refl

latest_page_lem :
    (w : Wagmi) (market address : ℕ) (h : Holding) (limit : ℕ)
    → Serves w market address h
    → latest_page w market address limit
      ≡ some (if length h.user_epochs == 0 then none else some (slice_last limit h.user_epochs))
unfolding latest_page get_user_epochs
latest_page_lem w market address h limit s =
    rw
      (
        s.pages 0 1,
        page_total h 0 1,
        s.pages (length h.user_epochs - limit) limit,
        page_latest h limit,
      )
      (elim (Bool-cases (length h.user_epochs == 0)) [
        | inl empty ↦ rw empty refl
        | inr full ↦ rw full refl
      ])

-- A wallet without epochs has no latest ones.
none_latest :
    (h : Holding) (limit : ℕ)
    → (length h.user_epochs == 0) ≡ true
    → slice_last limit h.user_epochs ≡ []
none_latest h limit e = drop_all _ h.user_epochs (ground (arith, e))

-- Of a market that answers as the contract does, the rows are those of the wallet's latest epochs,
-- as many as the limit or all of them, the newest first, each with the contract's own figures.
pub use_user_predictions_latest :
    (w : Wagmi) (market address : ℕ) (h : Holding) (limit : ℕ)
    → Serves w market address h
    → use_user_predictions w (some market) (some address) limit
      ≡ some (map (row_of h) (reverse (slice_last limit h.user_epochs)))
unfolding use_user_predictions
use_user_predictions_latest w market address h limit s =
    let epochs = reverse (slice_last limit h.user_epochs) in
    rw (latest_page_lem w market address h limit s) (elim (Bool-cases (length h.user_epochs == 0)) [
      | inl empty ↦ rw (empty, none_latest h limit empty) refl
      | inr full ↦
          rw (full, s.predictions epochs) (prediction_rows h address 0 [] _ epochs refl refl)
    ])

-- Likewise of the former market, in the order of the wallet's entries, and without the rows in which
-- nothing is owed.
pub use_legacy_claimable_latest :
    (w : Wagmi) (market address : ℕ) (h : Holding) (limit : ℕ)
    → Serves w market address h
    → use_legacy_claimable w (some market) (some address) limit
      ≡ some (filter is_owed (map (legacy_row_of h) (slice_last limit h.user_epochs)))
unfolding use_legacy_claimable
use_legacy_claimable_latest w market address h limit s =
    let epochs = slice_last limit h.user_epochs in
    rw (latest_page_lem w market address h limit s) (elim (Bool-cases (length h.user_epochs == 0)) [
      | inl empty ↦ rw (empty, none_latest h limit empty) refl
      | inr full ↦ rw (full, s.legacies epochs, legacy_rows h address 0 [] _ epochs refl refl) refl
    ])
