-- ===== src/Api/Users/Due.antt =====
-- What `/users/:wallet/claimable` asks the market about, by the tables themselves.
use ponshot.Api.Joins.{Joined, joined_rows, with_rounds, with_claims, on_bet}
use ponshot.Api.Rounds.{is_over}
use ponshot.Api.Sql.{where_rows, order_by, order_desc, insert_by}
use ponshot.Api.Sql.Order.{Distinct}
use ponshot.Api.Users.{uncollected, uncollected_epochs, joined_epoch}
use ponshot.Base.{
  ℕ, zero, suc, ◌+◌, ◌≤◌, ◌≡◌, ◌≢◌, refl, ap, ◌∙◌, Bool, true, false, not, ◌&&◌, ◌==◌, ==_iff,
  Bool-cases, ◌⊎◌, inl, inr, some, List, [], ◌∷◌, ◌++◌, All, map, sum, take, any, arith,
  if◌then◌else◌,
}
use ponshot.Indexer.Store.{Store, RoundRow, BetRow, ClaimRow, RowStatus}
use ponshot.Indexer.Table.{sum_where, count_where}

-- A round that can pay or refund.
abbrev pub is_finished : RowStatus → Bool
is_finished RowStatus.open_row = false
is_finished RowStatus.locked = false
is_finished RowStatus.settled = true
is_finished RowStatus.cancelled = true

-- A bet of the wallet on a finished round, for which the tables have no claim of the wallet.
abbrev pub awaits_claim : ℕ → Store → BetRow → Bool
awaits_claim account db b =
    b.account == account
    && any (λ r. r.epoch == b.epoch && is_finished r.status) db.rounds
    && not (any (λ c. c.epoch == b.epoch && c.account == b.account) db.claims)

is_over-finished : (r : RoundRow) → is_over r ≡ is_finished r.status
is_over-finished r = by_status r.status
  where
    by_status :
        (s : RowStatus)
        → (elim s [ RowStatus.settled ↦ true | RowStatus.cancelled ↦ true | _ ↦ false ])
          ≡ is_finished s
    by_status RowStatus.open_row = refl
    by_status RowStatus.locked = refl
    by_status RowStatus.settled = refl
    by_status RowStatus.cancelled = refl

-- What joined rows weigh, by their epochs.
abbrev weight : (ℕ → ℕ) → List Joined → ℕ
weight f js = sum (map f (map joined_epoch js))

abbrev one_if : Bool → ℕ → ℕ
one_if c n = if c then n else 0

module _ (f : ℕ → ℕ) (account : ℕ) where
  kept : List Joined → List Joined
  kept js = where_rows (uncollected account) js

  kept-append :
      (xs ys : List Joined) → weight f (kept (xs ++ ys)) ≡ weight f (kept xs) + weight f (kept ys)
  unfolding kept where_rows
  kept-append [] ys = omega arith
  kept-append (x ∷ xs) ys = elim (Bool-cases (uncollected account x)) [
    | inl hit ↦ rw hit (omega (arith, kept-append xs ys))
    | inr miss ↦ rw miss (kept-append xs ys)
  ]

  -- A row with a claim is left out.
  kept_claimed :
      (b : BetRow) (r : RoundRow) (cs : List ClaimRow)
      → kept (map (λ x. record { b = b; r = r; c = some x }) cs) ≡ []
  unfolding kept where_rows
  kept_claimed b r [] = refl
  kept_claimed b r (c ∷ cs) = elim (Bool-cases (b.account == account)) [
    | inl mine ↦ rw mine (kept_claimed b r cs)
    | inr other ↦ rw other (kept_claimed b r cs)
  ]

  -- The rows of a bet with one round.
  kept_one :
      (b : BetRow) (r : RoundRow) (claims : List ClaimRow)
      → weight f (kept (with_claims b r (where_rows (on_bet b) claims)))
        ≡ one_if (b.account == account && is_over r && not (any (on_bet b) claims)) (f b.epoch)
  unfolding where_rows kept
  kept_one b r [] = elim (Bool-cases (b.account == account)) [
    | inl mine ↦ elim (Bool-cases (is_over r)) [
      | inl done ↦ rw (mine, done) (omega arith)
      | inr going ↦ rw (mine, going) refl
    ]
    | inr other ↦ rw other refl
  ]
  kept_one b r (c ∷ cs) = elim (Bool-cases (on_bet b c)) [
    | inl hit ↦
        rw (any, hit)
          (ap (weight f) (kept_claimed b r (c ∷ where_rows (on_bet b) cs)) ∙ ground arith)
    | inr miss ↦ rw (any, miss) (kept_one b r cs)
  ]

-- Where the epochs of the rounds differ, a bet is joined with one of them at most.
no_round :
    (epoch : ℕ) (r : RoundRow) (rs : List RoundRow)
    → r.epoch ≡ epoch
    → All (λ x. x.epoch ≢ r.epoch) rs
    → (where_rows (λ x. x.epoch == epoch) rs ≡ [])
      × (any (λ x. x.epoch == epoch && is_finished x.status) rs ≡ false)
unfolding where_rows
no_round epoch r [] e d = (refl, refl)
no_round epoch r (x ∷ xs) e d =
    let miss : (x.epoch == epoch) ≡ false = ground (arith, e, d.0) in
    rw (any, miss) (no_round epoch r xs e d.1)

one_round :
    (epoch : ℕ) (rs : List RoundRow)
    → Distinct (λ r. r.epoch) rs
    → ((where_rows (λ r. r.epoch == epoch) rs ≡ [])
        × (any (λ r. r.epoch == epoch && is_finished r.status) rs ≡ false))
      ⊎ ((r : RoundRow) × (where_rows (λ x. x.epoch == epoch) rs ≡ r ∷ [])
          × (any (λ x. x.epoch == epoch && is_finished x.status) rs ≡ is_finished r.status))
unfolding where_rows
one_round epoch [] d = inl (refl, refl)
one_round epoch (r ∷ rs) d = elim (Bool-cases (r.epoch == epoch)) [
  | inl hit ↦
      let none_left = no_round epoch r rs ((==_iff r.epoch epoch).0 hit) d.0 in
      inr (
        r,
        rw (hit, none_left.0) refl,
        elim (Bool-cases (is_finished r.status)) [
          | inl done ↦ rw (any, hit, done) refl
          | inr going ↦ rw (any, hit, going) (none_left.1)
        ],
      )
  | inr miss ↦ rw (any, miss) (one_round epoch rs d.1)
]

module _ (f : ℕ → ℕ) (account : ℕ) (db : Store) (d : Distinct (λ r. r.epoch) db.rounds) where
  bet_weight :
      (b : BetRow)
      → weight f (
          kept f account (with_rounds b db.claims (where_rows (λ r. r.epoch == b.epoch) db.rounds)))
        ≡ one_if (awaits_claim account db b) (f b.epoch)
  unfolding with_rounds kept where_rows
  bet_weight b = elim (one_round b.epoch db.rounds d) [
    | inl (gone, nothing) ↦ rw (gone, nothing) (ground arith)
    | inr (r, joined, status) ↦
        rw (joined, status)
          (kept-append f account (with_claims b r (where_rows (on_bet b) db.claims)) []
            ∙ omega (
              arith,
              kept_one f account b r db.claims
                  ∙ ap
                      (λ c.
                        one_if (b.account == account && c && not (any (on_bet b) db.claims))
                          (f b.epoch))
                      (is_over-finished r),
            ))
  ]

  joined_weight :
      (bets : List BetRow)
      → weight f (kept f account (joined_rows bets db.rounds db.claims))
        ≡ sum_where (awaits_claim account db) (λ b. f b.epoch) bets
  unfolding joined_rows sum_where kept where_rows
  joined_weight [] = refl
  joined_weight (b ∷ bs) =
      kept-append f account
        (with_rounds b db.claims (where_rows (λ r. r.epoch == b.epoch) db.rounds))
        (joined_rows bs db.rounds db.claims)
      ∙ omega (arith, bet_weight b, joined_weight bs)

weight-insert_by :
    (f : ℕ → ℕ) (ahead : Joined → Joined → Bool) (j : Joined) (js : List Joined)
    → weight f (insert_by ahead j js) ≡ f j.b.epoch + weight f js
unfolding insert_by
weight-insert_by f ahead j [] = refl
weight-insert_by f ahead j (x ∷ xs) = elim (Bool-cases (ahead j x)) [
  | inl here ↦ rw here refl
  | inr later ↦ rw later (omega (arith, weight-insert_by f ahead j xs))
]

weight-order_by :
    (f : ℕ → ℕ) (ahead : Joined → Joined → Bool) (js : List Joined)
    → weight f (order_by ahead js) ≡ weight f js
unfolding order_by
weight-order_by f ahead [] = refl
weight-order_by f ahead (j ∷ js) =
    omega (arith, weight-insert_by f ahead j (order_by ahead js), weight-order_by f ahead js)

take_all : (n : ℕ) (js : List Joined) → weight (λ e. 1) js ≤ n → take n js ≡ js
take_all zero [] h = refl
take_all zero (j ∷ js) h = absurd (omega (arith, h))
take_all (suc n) [] h = refl
take_all (suc n) (j ∷ js) h = ap (λ xs. j ∷ xs) (take_all n js (omega (arith, h)))

count-sum :
    (test : BetRow → Bool) (bs : List BetRow) → sum_where test (λ b. 1) bs ≡ count_where test bs
unfolding sum_where count_where
count-sum test [] = refl
count-sum test (b ∷ bs) = ap (λ n. (if test b then 1 else 0) + n) (count-sum test bs)

-- The epochs that are asked about, if the limit of the query leaves none out.
pub uncollected_epochs-sum :
    (f : ℕ → ℕ) (account : ℕ) (db : Store)
    → Distinct (λ r. r.epoch) db.rounds
    → count_where (awaits_claim account db) db.bets ≤ 200
    → sum (map f (uncollected_epochs account db))
      ≡ sum_where (awaits_claim account db) (λ b. f b.epoch) db.bets
unfolding uncollected_epochs kept
uncollected_epochs-sum f account db d few =
    let rows = kept f account (joined_rows db.bets db.rounds db.claims) in
    let ordered = order_desc joined_epoch rows in
    let count : weight (λ e. 1) ordered ≡ count_where (awaits_claim account db) db.bets =
      weight-order_by (λ e. 1) _ rows
      ∙ joined_weight (λ e. 1) account db d db.bets
      ∙ count-sum (awaits_claim account db) db.bets in
    ap (weight f) (take_all 200 ordered (omega (arith, count, few)))
    ∙ weight-order_by f _ rows
    ∙ joined_weight f account db d db.bets
