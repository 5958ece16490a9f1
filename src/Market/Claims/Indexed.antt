-- ===== src/Market/Claims/Indexed.antt =====
-- The list of a wallet's epochs, over its entries.
use mathlib.Core.Option.{none-ne-some}
use ponshot.Base.Every.{IsDistinct, append-All, append-IsDistinct, All-map}
use ponshot.Base.{
  ℕ, ◌<◌, ◌==◌, ◌≡◌, ◌≢◌, refl, Bool-cases, inl, inr, some, some_inj, [], ◌∷◌, ◌++◌, All, arith,
}
use ponshot.Sdk.Types.{Position}
use ponshot.Market.Claims.{Holding, enter_ledger, book_bet}

-- The epochs in the list differ, and the wallet has a bet in each.
abbrev pub IsIndexed : Holding → Type 0
IsIndexed h = IsDistinct h.user_epochs × All (λ e. 0 < (h.ledger e).amount) h.user_epochs

module _ (position : Position) (epoch amount : ℕ) (h : Holding) (p : 0 < amount) where
  booked_amount :
      (x : ℕ) → 0 < (h.ledger x).amount → 0 < ((book_bet position epoch amount h).ledger x).amount
  booked_amount x q = ground (arith, p, q)

  own_amount : 0 < ((book_bet position epoch amount h).ledger epoch).amount
  own_amount = ground (arith, p)

  book_bet-IsIndexed :
      (h.ledger epoch).amount ≡ 0 → IsIndexed h → IsIndexed (book_bet position epoch amount h)
  book_bet-IsIndexed free i = (
    append-IsDistinct h.user_epochs epoch i.0 (
        All-map (λ x. 0 < (h.ledger x).amount) (λ x. x ≢ epoch) h.user_epochs
          (λ x q same.
            let there : 0 < (h.ledger epoch).amount = rw (← same) q in omega (arith, free, there))
          i.1),
    append-All (λ x. 0 < ((book_bet position epoch amount h).ledger x).amount) h.user_epochs
        (epoch ∷ [])
        (All-map (λ x. 0 < (h.ledger x).amount)
          (λ x. 0 < ((book_bet position epoch amount h).ledger x).amount) h.user_epochs
          booked_amount i.1)
        (own_amount, tt),
  )

-- An entry with a stake keeps that so, and lists the epoch behind the others.
pub enter_ledger-IsIndexed :
    (position : Position) (epoch amount : ℕ) (h after : Holding)
    → 0 < amount
    → IsIndexed h
    → enter_ledger position epoch amount h ≡ some after
    → IsIndexed after × (after.user_epochs ≡ h.user_epochs ++ (epoch ∷ []))
unfolding enter_ledger
enter_ledger-IsIndexed position epoch amount h after p i e =
    elim (Bool-cases ((h.ledger epoch).amount == 0)) [
      | inl free ↦
          let booked : book_bet position epoch amount h ≡ after = some_inj (rw free at e) in
          rw (← booked)
            (book_bet-IsIndexed position epoch amount h p (ground (arith, free)) i, refl)
      | inr taken ↦ absurd (none-ne-some after (rw taken at e))
    ]
