-- ===== src/Api/Rounds/Pages.antt =====
-- Walking the pages of `/prediction/rounds` by `nextBefore`, as a client does.
use ponshot.Api.Sql.Sorted.{length-order_by, Perm-order_by}
use mathlib.Core.List.{Perm}
use mathlib.Core.List.Perm
use mathlib.Core.Path.{subst}
use ponshot.Api.Queries.{Numerals, JsNumber, Reply, limit_of, as_bigint}
use ponshot.Api.Queries.Limit.{limit_of-bounds}
use ponshot.Api.Rounds.{
  prediction_rounds, RoundsPage, RoundView, round_row, before_test, epoch_of, rounds_page,
}
use ponshot.Api.Sql.{where_rows, order_desc, last_row}
use ponshot.Api.Sql.Order.{
  Descending, Distinct, order_desc-Descending, where-order_desc, where-where, where_kept,
  where-Descending, last-All, where_after,
}
use ponshot.Base.Text.{Text}
use ponshot.Base.{
  ℕ, suc, zero, ◌<◌, ◌≡◌, ◌≢◌, refl, sym, ap, Bool, true, ltb, Option, none, some, List, [], ◌∷◌,
  ◌++◌, All, map, take, drop, length, arith, Bool-cases, Option-cases, length-drop, inl, inr, ◌∙◌,
  leb,
}
use ponshot.Indexer.Store.{RoundRow}

-- PostgreSQL prints an epoch as a text that is not empty, and reads the text back as that number.
pub record IsFaithful (pg : Numerals) : Type 0 where
  pub print_text : (n : ℕ) → pg.print n ≢ []
  pub less_print : (n : ℕ) → pg.less (pg.print n) ≡ some (λ e. ltb e n)

-- A client's requests until `nextBefore` is null, each on the same table: the rounds that it gets,
-- or `none` where a request fails or the fuel ends.
unfoldable pub walk :
    Numerals
    → (Text → JsNumber)
    → (limit : Option Text) → List RoundRow
    → (fuel : ℕ) → (before : Option Text) → Option (List RoundView)
unfolding prediction_rounds
walk pg number limit table zero before = none
walk pg number limit table (suc fuel) before =
    elim (prediction_rounds pg number limit before table) [
      | Reply.reply page ↦ elim page.next_before [
        | none ↦ some page.rounds
        | some cursor ↦ elim (walk pg number limit table fuel (some cursor)) [
          | some rest ↦ some (page.rounds ++ rest)
          | none ↦ none
        ]
      ]
      | _ ↦ none
    ]

next_test :
    (pg : Numerals)
    → IsFaithful pg
    → (n : ℕ) → before_test pg (some (pg.print n)) ≡ some (λ r. ltb r.epoch n)
next_test pg h n = next (pg.print n) (h.print_text n) (h.less_print n)
  where
    next :
        (t : Text)
        → t ≢ []
        → pg.less t ≡ some (λ e. ltb e n)
        → before_test pg (some t) ≡ some (λ r. ltb r.epoch n)
    next [] some_text e = absurd (some_text refl)
    next (c ∷ t) some_text e = rw (before_test, e) refl

map-append :
    (n : ℕ) (rows : List RoundRow)
    → map round_row (take n rows) ++ map round_row (drop n rows) ≡ map round_row rows
map-append zero rows = refl
map-append (suc n) [] = refl
map-append (suc n) (r ∷ rows) = rw (map-append n rows)

where-satisfied :
    (test : RoundRow → Bool) (rows : List RoundRow)
    → All (λ r. test r ≡ true) (where_rows test rows)
unfolding where_rows
where-satisfied test [] = tt
where-satisfied test (r ∷ rows) = elim (Bool-cases (test r)) [
  | inl hit ↦ rw hit (hit, where-satisfied test rows)
  | inr miss ↦ rw miss (where-satisfied test rows)
]

no_last :
    (k : ℕ) (rows : List RoundRow) → 0 < k → last_row (take k rows) ≡ none → take k rows ≡ rows
no_last zero rows p e = absurd (omega (arith, p))
no_last (suc k) [] p e = refl
no_last (suc zero) (r ∷ rows) p e = grind (arith, e)
no_last (suc (suc k)) (r ∷ []) p e = grind (arith, e)
no_last (suc (suc k)) (r ∷ x ∷ rows) p e =
    ap (λ l. r ∷ l) (no_last (suc k) (x ∷ rows) (omega arith) e)

last_some :
    (k : ℕ) (rows : List RoundRow) (r : RoundRow)
    → last_row (take k rows) ≡ some r
    → 0 < length rows
last_some zero rows r e = grind (arith, e)
last_some (suc k) [] r e = grind (arith, e)
last_some (suc k) (x ∷ rows) r e = omega arith

-- The walk from a cursor under which the rows `left` are still to come.
module _ (pg : Numerals) (number : Text → JsNumber) (limit : Option Text) (table : List RoundRow)
    (n : ℕ) where
  walk_last :
      (fuel : ℕ) (before : Option Text) (page : RoundsPage)
      → prediction_rounds pg number limit before table ≡ Reply.reply page
      → page.next_before ≡ none
      → walk pg number limit table (suc fuel) before ≡ some page.rounds
  unfolding walk
  walk_last fuel before page e last = rw (walk, e, last)

  walk_more :
      (fuel : ℕ) (before : Option Text) (page : RoundsPage) (cursor : Text) (rest : List RoundView)
      → prediction_rounds pg number limit before table ≡ Reply.reply page
      → page.next_before ≡ some cursor
      → walk pg number limit table fuel (some cursor) ≡ some rest
      → walk pg number limit table (suc fuel) before ≡ some (page.rounds ++ rest)
  unfolding walk
  walk_more fuel before page cursor rest e more further = rw (walk, e, more, further)

  -- The answer at a cursor.
  answer :
      as_bigint (limit_of number limit 50 200) ≡ some n
      → Distinct epoch_of table
      → (before : Option Text) (test : RoundRow → Bool) → before_test pg before ≡ some test
      → prediction_rounds pg number limit before table
        ≡ Reply.reply (rounds_page pg (take n (where_rows test (order_desc epoch_of table))))
  unfolding prediction_rounds
  answer whole distinct before test at_test =
      rw (prediction_rounds, whole, at_test, where-order_desc epoch_of test table distinct)

  -- The rows under the last one of a page.
  after_page :
      Distinct epoch_of table
      → (test : RoundRow → Bool) (left : List RoundRow) (r : RoundRow)
      → ((x y : RoundRow) → test y ≡ true → ltb x.epoch y.epoch ≡ true → test x ≡ true)
      → where_rows test (order_desc epoch_of table) ≡ left
      → last_row (take n left) ≡ some r
      → where_rows (λ x. ltb x.epoch r.epoch) (order_desc epoch_of table) ≡ drop n left
  after_page distinct test left r down here e =
      let falls : Descending epoch_of left = subst (Descending epoch_of) here (
        where-Descending epoch_of test (order_desc epoch_of table)
          (order_desc-Descending epoch_of table distinct)) in
      let inside : test r ≡ true =
        last-All epoch_of (λ x. test x ≡ true) n left r
          (subst (All (λ x. test x ≡ true)) here (where-satisfied test (order_desc epoch_of table)))
          e in
      sym (
        where-where epoch_of (λ x. ltb x.epoch r.epoch) test (order_desc epoch_of table)
          (λ x low. down x r inside low))
      ∙ ap (where_rows (λ x. ltb x.epoch r.epoch)) here
      ∙ where_after epoch_of n left r falls e

  walk_from :
      IsFaithful pg
      → as_bigint (limit_of number limit 50 200) ≡ some n
      → Distinct epoch_of table
      → (fuel : ℕ) (before : Option Text) (test : RoundRow → Bool) (left : List RoundRow)
      → before_test pg before ≡ some test
      → ((x r : RoundRow) → test r ≡ true → ltb x.epoch r.epoch ≡ true → test x ≡ true)
      → where_rows test (order_desc epoch_of table) ≡ left
      → length left < fuel
      → walk pg number limit table fuel before ≡ some (map round_row left)
  walk_from faithful whole distinct zero before test left at_test down here enough =
      absurd (omega (arith, enough))
  walk_from faithful whole distinct (suc fuel) before test left at_test down here enough =
      let some_row : 0 < n =
        (limit_of-bounds number limit 50 200 n (omega arith) (omega arith) whole).0 in
      let page : RoundsPage = rounds_page pg (take n left) in
      let at_page : prediction_rounds pg number limit before table ≡ Reply.reply page =
        answer whole distinct before test at_test
        ∙ ap (λ rows. Reply.reply (rounds_page pg (take n rows))) here in
      elim (Option-cases (last_row (take n left))) [
        | inl e ↦
            walk_last fuel before page at_page (rw (rounds_page, e) refl)
            ∙ ap (λ rows. some (map round_row rows)) (no_last n left some_row e)
        | inr (r, e) ↦
            walk_more fuel before page (pg.print r.epoch) (map round_row (drop n left)) at_page
              (rw (rounds_page, e) refl)
              (walk_from faithful whole distinct fuel (some (pg.print r.epoch))
                (λ x. ltb x.epoch r.epoch) (drop n left) (next_test pg faithful r.epoch)
                (λ x y p q. ground arith) (after_page distinct test left r down here e)
                (omega (arith, length-drop n left, last_some n left r e, enough, some_row)))
            ∙ (ap some (map-append n left))
      ]

walk-order_desc :
    (pg : Numerals) (number : Text → JsNumber) (limit : Option Text) (table : List RoundRow)
    (n fuel : ℕ)
    → IsFaithful pg
    → as_bigint (limit_of number limit 50 200) ≡ some n
    → Distinct epoch_of table
    → length table < fuel
    → walk pg number limit table fuel none ≡ some (map round_row (order_desc epoch_of table))
walk-order_desc pg number limit table n fuel faithful whole distinct enough =
    walk_from pg number limit table n faithful whole distinct fuel none (λ r. true)
      (order_desc epoch_of table) refl (λ x r p q. refl)
      (where_kept epoch_of (λ r. true) (order_desc epoch_of table)
        (always (order_desc epoch_of table)))
      (omega (arith, length-order_by (λ r x. leb (epoch_of x) (epoch_of r)) table, enough))
  where
    always : (rows : List RoundRow) → All (λ r. true ≡ true) rows
    always [] = tt
    always (r ∷ rows) = (refl, always rows)

round_row-Descending :
    (rows : List RoundRow)
    → Descending epoch_of rows
    → Descending (λ v. v.epoch) (map round_row rows)
unfolding round_row
round_row-Descending [] d = tt
round_row-Descending (r ∷ rows) d = (below rows d.0, round_row-Descending rows d.1)
  where
    below :
        (xs : List RoundRow)
        → All (λ x. x.epoch < r.epoch) xs
        → All (λ v. v.epoch < r.epoch) (map round_row xs)
    below [] h = tt
    below (x ∷ xs) h = (h.0, below xs h.1)

-- If the query's limit is a whole number and no two rows have the same epoch, then more requests
-- than there are rows, from the first page on, end by themselves, and together they give every
-- round exactly once, the latest first.
pub walk_complete :
    (pg : Numerals) (number : Text → JsNumber) (limit : Option Text) (table : List RoundRow)
    (n fuel : ℕ)
    → IsFaithful pg
    → as_bigint (limit_of number limit 50 200) ≡ some n
    → Distinct epoch_of table
    → length table < fuel
    → (views : List RoundView) × (walk pg number limit table fuel none ≡ some views)
      × Perm views (map round_row table)
      × Descending (λ v. v.epoch) views
walk_complete pg number limit table n fuel faithful whole distinct enough = (
  map round_row (order_desc epoch_of table),
  walk-order_desc pg number limit table n fuel faithful whole distinct enough,
  Perm.map round_row (Perm-order_by (λ r x. leb (epoch_of x) (epoch_of r)) table),
  round_row-Descending (order_desc epoch_of table) (order_desc-Descending epoch_of table distinct),
)
