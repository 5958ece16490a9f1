-- ===== src/Keeper/Loop/Handled.antt =====
-- Rounds that the keeper remembers as cancelled.
use ponshot.Base.{ap, ◌∙◌, ℕ, List, [], ◌∷◌, ◌≡◌, refl, true, All}
use ponshot.Keeper.State.{is_handled}
use ponshot.Keeper.Tx.{Reply, ok, thrown}
use ponshot.Keeper.Loop.{Step, Keeper, KeeperConfig, Answers, cancel_one, for_each, and_then, done}

cancel_one_handled :
    (cfg : KeeperConfig) (a : Answers) (epoch : ℕ) (k : Keeper)
    → is_handled epoch k.sender.state ≡ true
    → cancel_one cfg a epoch k ≡ done k
unfolding cancel_one
cancel_one_handled cfg a epoch k h = rw (cancel_one, h) refl

and_then-done : (f g : Step) (k : Keeper) → f k ≡ done k → and_then f g k ≡ g k
unfolding and_then
and_then-done f g k e =
    ap
      (λ r. elim r.0 as (λ x. Reply (Unit {0}) × Keeper) [
        | ok _ ↦ g r.1
        | thrown x ↦ (thrown x, r.1)
      ])
      e

-- Cancellable rounds that are all marked as handled cost no call: the keeper stays as it was.
pub cancel_handled :
    (cfg : KeeperConfig) (a : Answers) (epochs : List ℕ) (k : Keeper)
    → All (λ epoch. is_handled epoch k.sender.state ≡ true) epochs
    → for_each (cancel_one cfg a) epochs k ≡ done k
unfolding for_each
cancel_handled cfg a [] k h = refl
cancel_handled cfg a (e ∷ rest) k h =
    and_then-done (cancel_one cfg a e) (for_each (cancel_one cfg a) rest) k
      (cancel_one_handled cfg a e k h.0)
    ∙ cancel_handled cfg a rest k h.1
