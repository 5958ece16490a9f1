-- ===== src/Keeper/Tx/Nonce.antt =====
-- Which nonces one `send` uses, and how many transactions it writes.
use ponshot.Keeper.Tx.Rules.{start_nonce, send_rule}
use ponshot.Base.{
  ℕ, zero, suc, ◌+◌, ◌≤◌, ◌≡◌, refl, sym, ap, ◌∙◌, inl, inr, List, [], ◌∷◌, ◌++◌, arith, length,
  length-append, All,
}
use mathlib.Core.List.{append-nil}
use ponshot.Keeper.Tx.{
  Reply, ok, thrown, FeeSettings, TxSenderOptions, SendArgs, PassReplies, Submission, Sender, again,
  pass, send_loop, send, Preflight,
}
use ponshot.Keeper.Tx.Pass.{
  Next-cases, written, NoConflict, pass-wire, send_loop-stop, send_loop-again, wire_chain,
}

-- The network reports no nonce conflict in any pass.
abbrev pub Quiet : (ℕ → PassReplies) → Type 0
Quiet net = (n : ℕ) → NoConflict (net n).gas × NoConflict (net n).hash

pass-nonce :
    (opts : TxSenderOptions) (args : SendArgs) (n : ℕ) (r : PassReplies) (nonce : ℕ)
    (fees : FeeSettings) (s : Sender) {n' : ℕ} {f' : FeeSettings} {s' : Sender}
    → NoConflict r.gas
    → NoConflict r.hash
    → pass opts args n r nonce fees s ≡ again n' f' s'
    → n' ≡ nonce
unfolding pass
pass-nonce opts args n r nonce fees s g h e = ground arith

-- What a run of the loop writes to the wire: transactions at one nonce, no more than passes.
abbrev pub Wrote : ℕ → ℕ → Sender → Sender → Type 0
Wrote left nonce s s' =
    (new : List Submission) × (s'.wire ≡ s.wire ++ new)
    × All (λ t. t.nonce ≡ nonce) new
    × (length new ≤ left)

written-All :
    (g : Reply ℕ) (nonce : ℕ) (fees : FeeSettings)
    → All (λ t. t.nonce ≡ nonce) (written g nonce fees)
written-All (ok gas) nonce fees = (refl, tt)
written-All (thrown e) nonce fees = tt

length-written-le :
    (g : Reply ℕ) (nonce : ℕ) (fees : FeeSettings) → length (written g nonce fees) ≤ 1
length-written-le (ok gas) nonce fees = omega arith
length-written-le (thrown e) nonce fees = omega arith

pub All-append {ℓ κ} :
    {A : Type ℓ} (P : A → Type κ) (xs ys : List A) → All P xs → All P ys → All P (xs ++ ys)
All-append P [] ys h k = k
All-append P (x ∷ xs) ys h k = (h.0, All-append P xs ys h.1 k)

Wrote-step :
    (left nonce : ℕ) (s s' s'' : Sender) (g : Reply ℕ) (fees : FeeSettings)
    → s'.wire ≡ s.wire ++ written g nonce fees
    → Wrote left nonce s' s''
    → Wrote (suc left) nonce s s''
Wrote-step left nonce s s' s'' g fees e (new, w, same, few) = (
  written g nonce fees ++ new,
  wire_chain s s' s'' (written g nonce fees) new e w,
  All-append _ (written g nonce fees) new (written-All g nonce fees) same,
  omega (arith, length-append (written g nonce fees) new, length-written-le g nonce fees),
)

Wrote-from :
    (left nonce : ℕ) (s s' s'' : Sender)
    → s'.wire ≡ s.wire
    → Wrote left nonce s' s''
    → Wrote left nonce s s''
Wrote-from left nonce s s' s'' e (new, w, same, few) = (new, w ∙ ap (λ l. l ++ new) e, same, few)

module _ (opts : TxSenderOptions) (args : SendArgs) (net : ℕ → PassReplies)
    (quiet : Quiet net) where
  send_loop-Wrote :
      (left attempts nonce : ℕ) (fees : FeeSettings) (s : Sender)
      → Wrote left nonce s (send_loop opts args net left attempts nonce fees s).1
  unfolding send_loop
  send_loop-Wrote zero attempts nonce fees s = ([], sym (append-nil s.wire), tt, omega arith)
  send_loop-Wrote (suc left) attempts nonce fees s =
      let r = net (attempts + 1) in
      let wrote = pass-wire opts args (attempts + 1) r nonce fees s in
      elim (Next-cases (pass opts args (attempts + 1) r nonce fees s)) [
        | inl (o, s', e) ↦ rw (send_loop-stop opts args net left attempts nonce fees s e) (
            Wrote-step left nonce s s' s' r.gas fees (rw e at wrote)
              ([], sym (append-nil s'.wire), tt, omega arith))
        | inr (n', f', s', e) ↦
            let same =
              pass-nonce opts args (attempts + 1) r nonce fees s (quiet (attempts + 1)).0
                (quiet (attempts + 1)).1 e in
            rw (send_loop-again opts args net left attempts nonce fees s e, same)
              (Wrote-step left nonce s s'
                (send_loop opts args net left (attempts + 1) nonce f' s').1 r.gas fees
                (rw e at wrote) (send_loop-Wrote left (attempts + 1) nonce f' s'))
      ]

-- If the network reports no nonce conflict while the call runs, then every transaction that one
-- `send` writes has the same nonce, the cached one or else the count that it read, so at most one
-- of them can be mined; and it writes no more of them than `maxAttempts`.
pub send_same_nonce :
    (opts : TxSenderOptions) (args : SendArgs) (net : ℕ → PassReplies) (pre : Preflight)
    (s : Sender)
    → Quiet net
    → Wrote opts.max_attempts (start_nonce pre.count s.cached_nonce) s (send opts args pre net s).1
send_same_nonce opts args net pre s quiet =
    let n = start_nonce pre.count s.cached_nonce in
    send_rule opts args pre net s (λ end. Wrote opts.max_attempts n s end.1)
      (λ o s' k idle. ([], k.1 ∙ sym (append-nil s.wire), tt, omega arith))
      (λ f s' fe k.
        Wrote-from opts.max_attempts n s s' (send_loop opts args net opts.max_attempts 0 n f s').1
          k.1 (send_loop-Wrote opts args net quiet opts.max_attempts 0 n f s'))
