-- ===== src/Api/Users/Claimable.antt =====
-- The totals that a wallet is shown as collectable.
use ponshot.Api.Queries.{Reply}
use ponshot.Api.Sql.{where_rows}
use ponshot.Api.Users.{
  ClaimEntry, ClaimableAnswer, require_address, uncollected_epochs, read_entries, is_actionable,
  claimable_answer, user_claimable,
}
use ponshot.Api.Sql.Order.{Distinct}
use ponshot.Api.Users.Due.{awaits_claim, uncollected_epochs-sum}
use ponshot.Indexer.Table.{count_where, sum_where}
use ponshot.Base.Text.{Text}
use ponshot.Base.{
  ℕ, ◌≤◌, ◌+◌, ◌<◌, ◌≡◌, refl, ◌∙◌, true, false, Bool-cases, Option, some, inl, inr, List, [], ◌∷◌,
  All, map, sum, ltb, ◌||◌, arith,
}
use ponshot.Indexer.Store.{Store}

-- The entries of epochs for which the market answers.
abbrev entries_of : (ℕ → ℕ × ℕ) → List ℕ → List ClaimEntry
entries_of quote [] = []
entries_of quote (epoch ∷ epochs) =
    record { epoch = epoch; claimable = (quote epoch).0; refundable = (quote epoch).1 }
    ∷ entries_of quote epochs

read_entries_lem :
    (market : ℕ → Option (ℕ × ℕ)) (quote : ℕ → ℕ × ℕ)
    → ((epoch : ℕ) → market epoch ≡ some (quote epoch))
    → (epochs : List ℕ) → read_entries market epochs ≡ some (entries_of quote epochs)
unfolding read_entries
read_entries_lem market quote answers [] = refl
read_entries_lem market quote answers (epoch ∷ epochs) =
    rw (read_entries, answers epoch, read_entries_lem market quote answers epochs) refl

acting : (a b : ℕ) → (ltb 0 a || ltb 0 b) ≡ true → 0 < a + b
acting a b e = ground arith

idle : (a b : ℕ) → (ltb 0 a || ltb 0 b) ≡ false → (a ≡ 0) × (b ≡ 0)
idle a b e = ground arith

-- Dropping the entries with nothing to collect leaves a sum as it is.
kept_total :
    (column : ClaimEntry → ℕ) (xs : List ClaimEntry)
    → ((x : ClaimEntry) → is_actionable x ≡ false → column x ≡ 0)
    → sum (map column (where_rows is_actionable xs)) ≡ sum (map column xs)
unfolding where_rows
kept_total column [] nothing = refl
kept_total column (x ∷ xs) nothing = elim (Bool-cases (is_actionable x)) [
  | inl hit ↦ rw hit (omega (arith, kept_total column xs nothing))
  | inr miss ↦ rw miss (omega (arith, nothing x miss, kept_total column xs nothing))
]

won_total :
    (quote : ℕ → ℕ × ℕ) (epochs : List ℕ)
    → sum (map (λ x. x.claimable) (entries_of quote epochs)) ≡ sum (map (λ e. (quote e).0) epochs)
won_total quote [] = refl
won_total quote (e ∷ es) = omega (arith, won_total quote es)

back_total :
    (quote : ℕ → ℕ × ℕ) (epochs : List ℕ)
    → sum (map (λ x. x.refundable) (entries_of quote epochs)) ≡ sum (map (λ e. (quote e).1) epochs)
back_total quote [] = refl
back_total quote (e ∷ es) = omega (arith, back_total quote es)

-- An entry that the wallet can act on, with the market's figures.
abbrev pub IsOffered : (ℕ → ℕ × ℕ) → ClaimEntry → Type 0
IsOffered quote x = ((x.claimable, x.refundable) ≡ quote x.epoch) × (0 < x.claimable + x.refundable)

offered :
    (quote : ℕ → ℕ × ℕ) (epochs : List ℕ)
    → All (IsOffered quote) (where_rows is_actionable (entries_of quote epochs))
unfolding where_rows
offered quote [] = tt
offered quote (e ∷ es) = elim (Bool-cases (ltb 0 (quote e).0 || ltb 0 (quote e).1)) [
  | inl hit ↦ rw hit ((refl, acting (quote e).0 (quote e).1 hit), offered quote es)
  | inr miss ↦ rw miss (offered quote es)
]

-- If the wallet is an address, the market answers for every epoch, no two rounds have the same epoch,
-- and the wallet has no more than 200 bets on settled or cancelled rounds for which it has no claim,
-- then the handler answers: each entry has the market's figures for its epoch, one of which is not 0,
-- and the totals are the sums of the market's figures over just those bets.
pub user_claimable-total :
    (account_id : Text → ℕ) (market : ℕ → ℕ → Option (ℕ × ℕ)) (quote : ℕ → ℕ × ℕ)
    (wallet account : Text) (db : Store)
    → require_address wallet ≡ some account
    → ((epoch : ℕ) → market (account_id account) epoch ≡ some (quote epoch))
    → Distinct (λ r. r.epoch) db.rounds
    → count_where (awaits_claim (account_id account) db) db.bets ≤ 200
    → (answer : ClaimableAnswer) × (user_claimable account_id market wallet db ≡ Reply.reply answer)
      × All (IsOffered quote) answer.entries
      × (answer.total_claimable
          ≡ sum_where (awaits_claim (account_id account) db) (λ b. (quote b.epoch).0) db.bets)
      × (answer.total_refundable
          ≡ sum_where (awaits_claim (account_id account) db) (λ b. (quote b.epoch).1) db.bets)
unfolding user_claimable claimable_answer
user_claimable-total account_id market quote wallet account db valid answers apart few =
    let epochs = uncollected_epochs (account_id account) db in
    let entries = entries_of quote epochs in
    (
      claimable_answer account entries,
      rw
          (
            user_claimable,
            valid,
            read_entries_lem (market (account_id account)) quote answers epochs,
          )
          refl,
      offered quote epochs,
      kept_total (λ x. x.claimable) entries (λ x e. (idle x.claimable x.refundable e).0)
          ∙ won_total quote epochs
          ∙ uncollected_epochs-sum (λ e. (quote e).0) (account_id account) db apart few,
      kept_total (λ x. x.refundable) entries (λ x e. (idle x.claimable x.refundable e).1)
          ∙ back_total quote epochs
          ∙ uncollected_epochs-sum (λ e. (quote e).1) (account_id account) db apart few,
    )
