-- ===== src/Keeper/Tx/Pass.antt =====
-- One pass of the loop: how it ends, and what it hands to the wallet.
use ponshot.Base.{ℕ, ◌+◌, ◌≡◌, refl, ◌⊎◌, inl, inr, false, List, [], ◌∷◌, ◌++◌, arith, suc, ◌∙◌, ap}
use mathlib.Core.List.{append-nil, append_assoc}
use ponshot.Keeper.Reason.{describe_revert, is_conflict}
use ponshot.Keeper.Tx.{
  Reply, ok, thrown, FeeSettings, TxSenderOptions, SendArgs, PassReplies, Submission, Sender,
  SendOutcome, Next, stop, again, gas_allowance, pass, send_loop,
}

abbrev pub sender_of : Next → Sender
sender_of (stop o s) = s
sender_of (again n f s) = s

pub Next-cases :
    (x : Next)
    → ((o : SendOutcome) × (s : Sender) × (x ≡ stop o s))
      ⊎ ((n : ℕ) × (f : FeeSettings) × (s : Sender) × (x ≡ again n f s))
Next-cases (stop o s) = inl (o, s, refl)
Next-cases (again n f s) = inr (n, f, s, refl)

-- What a pass asks the wallet to write: one transaction, unless the gas estimate fails.
abbrev pub written : Reply ℕ → ℕ → FeeSettings → List Submission
written (ok gas) nonce fees =
    record { nonce = nonce; gas_limit = gas_allowance gas; fees = fees } ∷ []
written (thrown e) nonce fees = []

-- A reply is no nonce conflict.
abbrev pub NoConflict : {A : Type 0} → Reply A → Type 0
NoConflict (ok a) = Unit
NoConflict (thrown e) = is_conflict (describe_revert e) ≡ false

pub pass-wire :
    (opts : TxSenderOptions) (args : SendArgs) (n : ℕ) (r : PassReplies) (nonce : ℕ)
    (fees : FeeSettings) (s : Sender)
    → (sender_of (pass opts args n r nonce fees s)).wire ≡ s.wire ++ written r.gas nonce fees
unfolding pass
pass-wire opts args n r nonce fees s = ground (arith, append-nil s.wire)

-- The loop through one pass, for proofs that keep the pass shut.
module _ (opts : TxSenderOptions) (args : SendArgs) (net : ℕ → PassReplies)
    (left attempts nonce : ℕ) (fees : FeeSettings) (s : Sender) where
  pub send_loop-stop :
      {o : SendOutcome} {s' : Sender}
      → pass opts args (attempts + 1) (net (attempts + 1)) nonce fees s ≡ stop o s'
      → send_loop opts args net (suc left) attempts nonce fees s ≡ (o, s')
  unfolding send_loop
  send_loop-stop e = rw (e, send_loop)

  pub send_loop-again :
      {n' : ℕ} {f' : FeeSettings} {s' : Sender}
      → pass opts args (attempts + 1) (net (attempts + 1)) nonce fees s ≡ again n' f' s'
      → send_loop opts args net (suc left) attempts nonce fees s
        ≡ send_loop opts args net left (attempts + 1) n' f' s'
  unfolding send_loop
  send_loop-again e = rw (e, send_loop)

pub wire_chain :
    (s s' s'' : Sender) (xs ys : List Submission)
    → s'.wire ≡ s.wire ++ xs
    → s''.wire ≡ s'.wire ++ ys
    → s''.wire ≡ s.wire ++ (xs ++ ys)
wire_chain s s' s'' xs ys e w = w ∙ ap (λ l. l ++ ys) e ∙ append_assoc s.wire xs ys
