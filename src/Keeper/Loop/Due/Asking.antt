-- ===== src/Keeper/Loop/Due/Asking.antt =====
-- What parts of a tick ask for, against plans of calls.

use mathlib.Core.List.{append-nil, append_assoc}
use ponshot.Base.{true, false, List, [], ◌∷◌, ◌++◌, ◌≡◌, ◌∙◌, sym, Bool, ℕ, if◌then◌else◌, ap}
use ponshot.Keeper.State.{cancel_round}
use ponshot.Keeper.Tx.{SendArgs, Reply, ok, thrown}
use ponshot.Keeper.Loop.{Keeper, Step, and_then, for_each, done}

-- `Skips P xs ys`: `xs` is `ys`, in its order, without some elements, each of which satisfies `P`.
pub data Skips {ℓ} {A : Type ℓ} (P : A → Type 0) : List A → List A → Type ℓ where
  none_left : Skips P [] []
  taken : (x : A) {xs ys : List A} → Skips P xs ys → Skips P (x ∷ xs) (x ∷ ys)
  skipped : (x : A) {xs ys : List A} → P x → Skips P xs ys → Skips P xs (x ∷ ys)

module _ {ℓ} {A : Type ℓ} {P : A → Type 0} where
  Skips-append :
      {xs ys us vs : List A} → Skips P xs ys → Skips P us vs → Skips P (xs ++ us) (ys ++ vs)
  Skips-append none_left t = t
  Skips-append (taken x s) t = taken x (Skips-append s t)
  Skips-append (skipped x p s) t = skipped x p (Skips-append s t)

  Skips-mono :
      {Q : A → Type 0} {xs ys : List A} → ((x : A) → P x → Q x) → Skips P xs ys → Skips Q xs ys
  Skips-mono h none_left = none_left
  Skips-mono h (taken x s) = taken x (Skips-mono h s)
  Skips-mono h (skipped x p s) = skipped x (h x p) (Skips-mono h s)

  Skips-all : ((x : A) → P x) → (ys : List A) → Skips P [] ys
  Skips-all h [] = none_left
  Skips-all h (y ∷ ys) = skipped y (h y) (Skips-all h ys)

-- A part of a tick that ends well leaves out cancellations at most; one that throws, anything.
abbrev pub MaySkip : Reply (Unit {0}) → SendArgs → Type 0
MaySkip (ok _) args = args.action ≡ cancel_round
MaySkip (thrown e) args = Unit

-- What was asked for between `k` and the end of a part of a tick, against a plan.
abbrev pub Asked : List SendArgs → Keeper → Reply (Unit {0}) × Keeper → Type 0
Asked plan k r =
    (xs : List SendArgs) × (r.1.requests ≡ k.requests ++ xs) × Skips (MaySkip r.0) xs plan

MaySkip-any : (r : Reply (Unit {0})) (x : SendArgs) → x.action ≡ cancel_round → MaySkip r x
MaySkip-any (ok _) x h = h
MaySkip-any (thrown e) x h = tt

abbrev pub Asks : List SendArgs → Step → Type 0
Asks plan f = (k : Keeper) → Asked plan k (f k)

join-Asked :
    (p q : List SendArgs) (k : Keeper) (g : Step) (r : Reply (Unit {0}) × Keeper)
    → Asked p k r
    → Asks q g
    → Asked (p ++ q) k (elim r.0 [ ok _ ↦ g r.1 | thrown e ↦ (thrown e, r.1) ])
join-Asked p q k g (ok u, k1) (xs, e, s) h =
    let next = h k1 in
    (
      xs ++ next.0,
      next.1 ∙ ap (λ ys. ys ++ next.0) e ∙ append_assoc k.requests xs next.0,
      Skips-append (Skips-mono (MaySkip-any (g k1).0) s) next.2,
    )
join-Asked p q k g (thrown x, k1) (xs, e, s) h =
    (xs, e, rw (sym (append-nil xs)) (Skips-append s (Skips-all (λ y. tt) q)))

pub and_then-Asks :
    (p q : List SendArgs) (f g : Step) → Asks p f → Asks q g → Asks (p ++ q) (and_then f g)
unfolding and_then
and_then-Asks p q f g a b k = join-Asked p q k g (f k) (a k) b

pub done-Asks : Asks [] done
done-Asks k = ([], sym (append-nil k.requests), none_left)

pub Asks-if :
    {p q : List SendArgs} (b : Bool) (f g : Step)
    → Asks p f
    → Asks q g
    → Asks (if b then p else q) (λ k. if b then f k else g k)
Asks-if true f g x y = x
Asks-if false f g x y = y

-- A plan for each number of a list, one after the other.
abbrev pub each : (ℕ → List SendArgs) → List ℕ → List SendArgs
each to [] = []
each to (x ∷ xs) = to x ++ each to xs

pub for_each-Asks :
    (to : ℕ → List SendArgs) (body : ℕ → Step) (xs : List ℕ)
    → ((x : ℕ) → Asks (to x) (body x))
    → Asks (each to xs) (for_each body xs)
unfolding for_each and_then
for_each-Asks to body [] h k = done-Asks k
for_each-Asks to body (x ∷ xs) h k =
    join-Asked (to x) (each to xs) k (for_each body xs) (body x k) (h x k)
      (for_each-Asks to body xs h)
