-- ===== src/Keeper/Tx/Fees.antt =====
-- How the fees of one `send` rise.
use ponshot.Keeper.Tx.Rules.{send_rule, start_nonce}
use mathlib.Core.List.{append-nil}
use ponshot.Keeper.Tx.Pass.{
  written, pass-wire, Next-cases, send_loop-stop, send_loop-again, wire_chain, sender_of,
}
use ponshot.Base.Division.{scaled-ge, scaled-gt}
use ponshot.Keeper.Tx.{
  FeeSettings, bump_fees, Reply, TxSenderOptions, scale_fee, SendArgs, Submission, pass,
  PassReplies, Sender, send_loop, again, ok, thrown, Preflight, Caught, send,
}
use ponshot.Base.{
  zero, suc, ℕ, Option, some, List, arith, ◌∷◌, ◌≡◌, [], ◌++◌, sym, ◌⊎◌, inl, inr, suc, ◌+◌, none,
  ◌≤◌, ◌*◌, ◌∙◌, ◌<◌, ◌/◌, ap,
}

-- Both fields of the second are at least those of the first, and absent where those are.
abbrev pub NotBelow : Option ℕ → Option ℕ → Type 0
NotBelow none none = Unit
NotBelow none (some b) = ⊥
NotBelow (some a) none = ⊥
NotBelow (some a) (some b) = a ≤ b

abbrev pub FeesRise : FeeSettings → FeeSettings → Type 0
FeesRise f g =
    NotBelow f.max_fee_per_gas g.max_fee_per_gas
    × NotBelow f.max_priority_fee_per_gas g.max_priority_fee_per_gas

NotBelow-refl : (a : Option ℕ) → NotBelow a a
NotBelow-refl none = tt
NotBelow-refl (some a) = omega arith

NotBelow-trans : (a b c : Option ℕ) → NotBelow a b → NotBelow b c → NotBelow a c
NotBelow-trans none none c h k = k
NotBelow-trans none (some b) c h k = absurd h
NotBelow-trans (some a) none c h k = absurd h
NotBelow-trans (some a) (some b) none h k = k
NotBelow-trans (some a) (some b) (some c) h k = omega arith

FeesRise-refl : (f : FeeSettings) → FeesRise f f
FeesRise-refl f = (NotBelow-refl f.max_fee_per_gas, NotBelow-refl f.max_priority_fee_per_gas)

FeesRise-trans : (f g h : FeeSettings) → FeesRise f g → FeesRise g h → FeesRise f h
FeesRise-trans f g h p q = (
  NotBelow-trans f.max_fee_per_gas g.max_fee_per_gas h.max_fee_per_gas p.0 q.0,
  NotBelow-trans f.max_priority_fee_per_gas g.max_priority_fee_per_gas h.max_priority_fee_per_gas
      p.1 q.1,
)

NotBelow-scale : (a : Option ℕ) (percent : ℕ) → NotBelow a (scale_fee percent a)
NotBelow-scale none percent = tt
NotBelow-scale (some a) percent = scaled-ge a percent

bump_fees-FeesRise : (f : FeeSettings) (percent : ℕ) → FeesRise f (bump_fees f percent)
unfolding bump_fees
bump_fees-FeesRise f percent =
    (NotBelow-scale f.max_fee_per_gas percent, NotBelow-scale f.max_priority_fee_per_gas percent)

-- Every transaction of the list pays at least the fees, and at least those of the ones before it.
abbrev pub Escalates : FeeSettings → List Submission → Type 0
Escalates f [] = Unit
Escalates f (t ∷ ts) = FeesRise f t.fees × Escalates t.fees ts

Escalates-weaken :
    (f g : FeeSettings) (ts : List Submission) → FeesRise f g → Escalates g ts → Escalates f ts
Escalates-weaken f g [] h k = tt
Escalates-weaken f g (t ∷ ts) h k = (FeesRise-trans f g t.fees h k.0, k.1)

Escalates-written :
    (g : Reply ℕ) (nonce : ℕ) (f f' : FeeSettings) (ts : List Submission)
    → FeesRise f f'
    → Escalates f' ts
    → Escalates f (written g nonce f ++ ts)
Escalates-written (ok gas) nonce f f' ts h k = (FeesRise-refl f, Escalates-weaken f f' ts h k)
Escalates-written (thrown e) nonce f f' ts h k = Escalates-weaken f f' ts h k

-- What was written since, in order of writing.
abbrev pub Escalated : FeeSettings → Sender → Sender → Type 0
Escalated f s s' = (new : List Submission) × (s'.wire ≡ s.wire ++ new) × Escalates f new

module _ (opts : TxSenderOptions) (args : SendArgs) where
  pass-fees :
      (n : ℕ) (r : PassReplies) (nonce : ℕ) (fees : FeeSettings) (s : Sender) {n' : ℕ}
      {f' : FeeSettings} {s' : Sender}
      → pass opts args n r nonce fees s ≡ again n' f' s'
      → (f' ≡ fees) ⊎ (f' ≡ bump_fees fees opts.bump_percent)
  unfolding pass
  pass-fees n r nonce fees s e = ground arith

  pass-FeesRise :
      (n : ℕ) (r : PassReplies) (nonce : ℕ) (fees : FeeSettings) (s : Sender) {n' : ℕ}
      {f' : FeeSettings} {s' : Sender}
      → pass opts args n r nonce fees s ≡ again n' f' s'
      → FeesRise fees f'
  pass-FeesRise n r nonce fees s e = elim (pass-fees n r nonce fees s e) [
    | inl same ↦ rw same (FeesRise-refl fees)
    | inr bumped ↦ rw bumped (bump_fees-FeesRise fees opts.bump_percent)
  ]

  send_loop-Escalated :
      (net : ℕ → PassReplies) (left attempts nonce : ℕ) (fees : FeeSettings) (s : Sender)
      → Escalated fees s (send_loop opts args net left attempts nonce fees s).1
  unfolding send_loop
  send_loop-Escalated net zero attempts nonce fees s = ([], sym (append-nil s.wire), tt)
  send_loop-Escalated net (suc left) attempts nonce fees s =
      let r = net (attempts + 1) in
      let wrote = pass-wire opts args (attempts + 1) r nonce fees s in
      elim (Next-cases (pass opts args (attempts + 1) r nonce fees s)) [
        | inl (o, s', e) ↦ rw (send_loop-stop opts args net left attempts nonce fees s e) (
          written r.gas nonce fees ++ [],
          rw (append-nil (written r.gas nonce fees)) (rw e at wrote),
          Escalates-written r.gas nonce fees fees [] (FeesRise-refl fees) tt,
        )
        | inr (n', f', s', e) ↦
            let (new, w, up) = send_loop-Escalated net left (attempts + 1) n' f' s' in
            rw (send_loop-again opts args net left attempts nonce fees s e) (
              written r.gas nonce fees ++ new,
              wire_chain s s' (send_loop opts args net left (attempts + 1) n' f' s').1
                  (written r.gas nonce fees) new (rw e at wrote) w,
              Escalates-written r.gas nonce fees f' new
                  (pass-FeesRise (attempts + 1) r nonce fees s e) up,
            )
      ]

-- The fees of one `send` never fall: the first transaction pays at least the estimate, and each
-- further one at least as much as the one before it, in both fee fields.
pub send_escalates :
    (opts : TxSenderOptions) (args : SendArgs) (pre : Preflight) (net : ℕ → PassReplies)
    (s : Sender) {f : FeeSettings}
    → pre.fees ≡ ok f
    → Escalated f s (send opts args pre net s).1
send_escalates opts args pre net s {f} e =
    send_rule opts args pre net s (λ end. Escalated f s end.1)
      (λ o s' k idle. ([], k.1 ∙ sym (append-nil s.wire), tt))
      (λ f' s' fe k.
        let (new, w, up) =
          send_loop-Escalated opts args net opts.max_attempts 0
            (start_nonce pre.count s.cached_nonce) f' s' in
        let same : f' ≡ f = cc in (new, w ∙ ap (λ l. l ++ new) k.1, rw (← same) up))

-- A transaction that the wallet accepted and that is not confirmed in time is replaced, not sent
-- anew: the next pass has the same nonce, and both fees raised by the configured percentage, of
-- which the fee cap rises strictly if that percentage of it comes to one wei.
pub pass_outbids :
    (opts : TxSenderOptions) (args : SendArgs) (n : ℕ) (r : PassReplies) (nonce : ℕ)
    (fees : FeeSettings) (s : Sender) (v : ℕ) {gas hash : ℕ} {late : Caught}
    → r.gas ≡ ok gas
    → r.hash ≡ ok hash
    → r.receipt ≡ thrown late
    → fees.max_fee_per_gas ≡ some v
    → 100 ≤ v * opts.bump_percent
    → let raised = bump_fees fees opts.bump_percent in
      (pass opts args n r nonce fees s
        ≡ again nonce raised (sender_of (pass opts args n r nonce fees s)))
      × ((w : ℕ) × (raised.max_fee_per_gas ≡ some w) × (v < w))
unfolding pass bump_fees
pass_outbids opts args n r nonce fees s v g h l e big = (
  ground arith,
  (v * (100 + opts.bump_percent) / 100, ground arith, scaled-gt v opts.bump_percent big),
)
