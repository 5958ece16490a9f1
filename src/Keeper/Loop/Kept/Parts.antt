-- ===== src/Keeper/Loop/Kept/Parts.antt =====
-- Parts of a tick that keep the limits of the state.
use ponshot.Base.{ℕ, ◌≡◌, inl, inr, Bool, true, false, Bool-cases, List, [], ◌∷◌, if◌then◌else◌}
use ponshot.Keeper.State.{KeeperState}
use ponshot.Keeper.State.Bounds.{IsBounded, update-IsBounded, mark_handled_lem}
use ponshot.Keeper.Reason.{Caught}
use ponshot.Keeper.Tx.{Reply, ok, thrown, SendOutcome, returned, threw}
use ponshot.Keeper.Loop.{
  Keeper, Step, Answers, and_then, for_each, noting, after_cancel, is_failed, conclude,
}

abbrev pub Bounded : Keeper → Type 0
Bounded k = IsBounded k.sender.state

-- A part of a tick that keeps the limits.
abbrev pub Keeps : Step → Type 0
Keeps f = (k : Keeper) → Bounded k → Bounded (f k).1

join-Keeps :
    (g : Step) (r : Reply (Unit {0}) × Keeper)
    → Bounded r.1
    → Keeps g
    → Bounded
        (elim r.0 as (λ x. Reply (Unit {0}) × Keeper) [
          | ok _ ↦ g r.1
          | thrown e ↦ (thrown e, r.1)
        ]).1
join-Keeps g (ok u, k) b h = h k b
join-Keeps g (thrown e, k) b h = b

pub and_then-Keeps : (f g : Step) → Keeps f → Keeps g → Keeps (and_then f g)
unfolding and_then
and_then-Keeps f g p q k b = join-Keeps g (f k) (p k b) q

pub for_each-Keeps :
    (body : ℕ → Step) (xs : List ℕ) → ((x : ℕ) → Keeps (body x)) → Keeps (for_each body xs)
unfolding for_each and_then
for_each-Keeps body [] h k b = b
for_each-Keeps body (x ∷ xs) h k b =
    join-Keeps (for_each body xs) (body x k) (h x k b) (for_each-Keeps body xs h)

pub Keeps-if : (c : Bool) (f g : Step) → Keeps f → Keeps g → Keeps (λ k. if c then f k else g k)
Keeps-if true f g p q = p
Keeps-if false f g p q = q

pub Keeps-reply {ℓ} :
    {A : Type ℓ} (r : Reply A) (f : A → Step) (g : Caught → Step)
    → ((x : A) → Keeps (f x))
    → ((e : Caught) → Keeps (g e))
    → Keeps (λ k. elim r [ ok x ↦ f x k | thrown e ↦ g e k ])
Keeps-reply (ok x) f g u v = u x
Keeps-reply (thrown e) f g u v = v e

pub noting-Keeps :
    (fn : Keeper → KeeperState → KeeperState)
    → ((k : Keeper) (s : KeeperState) → (fn k s).handled ≡ s.handled)
    → Keeps (noting fn)
noting-Keeps fn same k b =
    update-IsBounded (fn k) k.sender.state (rw (same k k.sender.state) b.handled_bounded)

pub after_cancel-Keeps :
    (epoch now : ℕ) (o : SendOutcome) (k : Keeper)
    → Bounded k
    → Bounded (after_cancel epoch now o k)
after_cancel-Keeps epoch now (threw e) k b = b
after_cancel-Keeps epoch now (returned r) k b = elim (Bool-cases (is_failed r.status)) [
  | inl bad ↦ rw bad b
  | inr good ↦ rw good (mark_handled_lem epoch now k.sender.state b).0
]

pub conclude-Keeps :
    (a : Answers) (r : Reply (Unit {0})) (k : Keeper) → Bounded k → Bounded (conclude a r k)
conclude-Keeps a (ok u) k b = update-IsBounded _ k.sender.state b.handled_bounded
conclude-Keeps a (thrown e) k b = b
