-- ===== src/Keeper/Tx/Accounts.antt =====
-- The counters that `send` keeps.
use ponshot.Keeper.Tx.Rules.{confirmations, send_rule, failures, start_nonce}
use ponshot.Keeper.Tx.Pass.{
  Next-cases, send_loop-stop, send_loop-again, pass-wire, written, sender_of,
}
use ponshot.Keeper.Tx.{
  SendOutcome, TxSenderOptions, SendArgs, pass, PassReplies, FeeSettings, Sender, stop, again,
  send_loop, send, Preflight, Reply, ok, thrown,
}
use ponshot.Keeper.State.{update}
use ponshot.Base.{
  zero, ℕ, suc, ◌≡◌, ◌≤◌, refl, arith, ◌+◌, inl, inr, ap, ◌∙◌, sym, Bool, true, false, not, ◌&&◌,
  length, length-append, if◌then◌else◌,
}

abbrev pub is_ok {ℓ} : {A : Type ℓ} → Reply A → Bool
is_ok (ok a) = true
is_ok (thrown e) = false

-- A pass asks the wallet to write a transaction; the wallet accepts it, with a hash; and no receipt
-- of it comes.
abbrev pub is_asked : PassReplies → Bool
is_asked r = is_ok r.gas

abbrev pub is_accepted : PassReplies → Bool
is_accepted r = is_ok r.gas && is_ok r.hash

abbrev pub is_lost : PassReplies → Bool
is_lost r = is_ok r.gas && is_ok r.hash && not (is_ok r.receipt)

abbrev pub one : Bool → ℕ
one b = if b then 1 else 0

-- How many of so many passes, from the one after a number on, answer so.
abbrev pub tally : (PassReplies → Bool) → (ℕ → PassReplies) → (after passes : ℕ) → ℕ
tally test net after zero = 0
tally test net after (suc k) = one (test (net (after + 1))) + tally test net (after + 1) k

-- The counters after passes of which so many asked for, had accepted and lost a transaction.
pub record Counted (asked accepted lost : ℕ) (o : SendOutcome) (s s' : Sender) : Type 0 where
  pub asked_counted : length s'.wire ≡ length s.wire + asked
  pub sent_counted : s'.state.totals.sent ≡ s.state.totals.sent + accepted
  pub replaced_counted : s'.state.totals.replaced ≡ s.state.totals.replaced + lost
  pub confirmed_counted : s'.state.totals.confirmed ≡ s.state.totals.confirmed + confirmations o
  pub failed_counted : s'.state.totals.failed ≡ s.state.totals.failed + failures o

-- The call ran some passes, and its counters are those of their replies.
abbrev pub Booked : ℕ → (ℕ → PassReplies) → ℕ → SendOutcome → Sender → Sender → Type 0
Booked limit net after o s s' =
    (k : ℕ) × (k ≤ limit)
    × Counted (tally is_asked net after k) (tally is_accepted net after k)
        (tally is_lost net after k) o s s'

-- A pass that goes on has counted nothing but what it had accepted and lost.
record Carried (r : PassReplies) (s s' : Sender) : Type 0 where
  pub asked_carried : length s'.wire ≡ length s.wire + one (is_asked r)
  pub sent_carried : s'.state.totals.sent ≡ s.state.totals.sent + one (is_accepted r)
  pub replaced_carried : s'.state.totals.replaced ≡ s.state.totals.replaced + one (is_lost r)
  pub confirmed_carried : s'.state.totals.confirmed ≡ s.state.totals.confirmed
  pub failed_carried : s'.state.totals.failed ≡ s.state.totals.failed

length-written :
    (gas : Reply ℕ) (nonce : ℕ) (fees : FeeSettings)
    → length (written gas nonce fees) ≡ one (is_ok gas)
length-written (ok gas) nonce fees = refl
length-written (thrown e) nonce fees = refl

module _ (opts : TxSenderOptions) (args : SendArgs) where
  pass-asked :
      (n : ℕ) (r : PassReplies) (nonce : ℕ) (fees : FeeSettings) (s s' : Sender)
      → sender_of (pass opts args n r nonce fees s) ≡ s'
      → length s'.wire ≡ length s.wire + one (is_asked r)
  pass-asked n r nonce fees s s' e =
      ap (λ x. length x.wire) (sym e)
      ∙ ap length (pass-wire opts args n r nonce fees s)
      ∙ length-append s.wire (written r.gas nonce fees)
      ∙ ap (λ k. length s.wire + k) (length-written r.gas nonce fees)

  pass-Counted :
      (n : ℕ) (r : PassReplies) (nonce : ℕ) (fees : FeeSettings) (s : Sender) {o : SendOutcome}
      {s' : Sender}
      → pass opts args n r nonce fees s ≡ stop o s'
      → Counted (one (is_asked r)) (one (is_accepted r)) (one (is_lost r)) o s s'
  unfolding pass update
  pass-Counted n r nonce fees s {s' = s'} e = record {
    asked_counted = pass-asked n r nonce fees s s' (ap sender_of e);
    sent_counted = ground arith;
    replaced_counted = ground arith;
    confirmed_counted = ground arith;
    failed_counted = ground arith;
  }

  pass-Carried :
      (n : ℕ) (r : PassReplies) (nonce : ℕ) (fees : FeeSettings) (s : Sender) {n' : ℕ}
      {f' : FeeSettings} {s' : Sender}
      → pass opts args n r nonce fees s ≡ again n' f' s'
      → Carried r s s'
  unfolding pass update
  pass-Carried n r nonce fees s {s' = s'} e = record {
    asked_carried = pass-asked n r nonce fees s s' (ap sender_of e);
    sent_carried = ground arith;
    replaced_carried = ground arith;
    confirmed_carried = ground arith;
    failed_carried = ground arith;
  }

  Booked-stop :
      (limit : ℕ) (net : ℕ → PassReplies) (after : ℕ) (o : SendOutcome) (s s' : Sender)
      → let r = net (after + 1) in
        Counted (one (is_asked r)) (one (is_accepted r)) (one (is_lost r)) o s s'
        → Booked (suc limit) net after o s s'
  Booked-stop limit net after o s s' c = (
    1,
    omega arith,
    record {
      asked_counted = omega (arith, c.asked_counted);
      sent_counted = omega (arith, c.sent_counted);
      replaced_counted = omega (arith, c.replaced_counted);
      confirmed_counted = c.confirmed_counted;
      failed_counted = c.failed_counted;
    },
  )

  Booked-again :
      (limit : ℕ) (net : ℕ → PassReplies) (after : ℕ) (o : SendOutcome) (s s' s'' : Sender)
      → Carried (net (after + 1)) s s'
      → Booked limit net (after + 1) o s' s''
      → Booked (suc limit) net after o s s''
  Booked-again limit net after o s s' s'' r (k, le, c) = (
    suc k,
    omega (arith, le),
    record {
      asked_counted = omega (arith, r.asked_carried, c.asked_counted);
      sent_counted = omega (arith, r.sent_carried, c.sent_counted);
      replaced_counted = omega (arith, r.replaced_carried, c.replaced_counted);
      confirmed_counted = omega (arith, r.confirmed_carried, c.confirmed_counted);
      failed_counted = omega (arith, r.failed_carried, c.failed_counted);
    },
  )

  send_loop-Booked :
      (net : ℕ → PassReplies) (left attempts nonce : ℕ) (fees : FeeSettings) (s : Sender)
      → let end = send_loop opts args net left attempts nonce fees s in
        Booked left net attempts end.0 s end.1
  unfolding send_loop update
  send_loop-Booked net zero attempts nonce fees s = (
    0,
    omega arith,
    record {
      asked_counted = omega arith;
      sent_counted = omega arith;
      replaced_counted = omega arith;
      confirmed_counted = omega arith;
      failed_counted = omega arith;
    },
  )
  send_loop-Booked net (suc left) attempts nonce fees s =
      elim (Next-cases (pass opts args (attempts + 1) (net (attempts + 1)) nonce fees s)) [
        | inl (o, s', e) ↦ rw (send_loop-stop opts args net left attempts nonce fees s e) (
            Booked-stop left net attempts o s s'
              (pass-Counted (attempts + 1) (net (attempts + 1)) nonce fees s e))
        | inr (n', f', s', e) ↦ rw (send_loop-again opts args net left attempts nonce fees s e) (
            Booked-again left net attempts _ s s' _
              (pass-Carried (attempts + 1) (net (attempts + 1)) nonce fees s e)
              (send_loop-Booked net left (attempts + 1) n' f' s'))
      ]

-- The counters after any `send` are exact, by the answers to the passes that it ran, of which there
-- are no more than the limit: it asked the wallet for a transaction in each of them whose gas
-- estimate came; `sent` has grown by the transactions that the wallet accepted, `replaced` by those
-- of them of which no receipt came, `confirmed` by one exactly if the call ends confirmed, and
-- `failed` by one exactly if it ends reverted or out of attempts.
pub send-Booked :
    (opts : TxSenderOptions) (args : SendArgs) (pre : Preflight) (net : ℕ → PassReplies)
    (s : Sender)
    → let end = send opts args pre net s in Booked opts.max_attempts net 0 end.0 s end.1
send-Booked opts args pre net s =
    send_rule opts args pre net s (λ end. Booked opts.max_attempts net 0 end.0 s end.1)
      (λ o s' k idle. (
        0,
        omega arith,
        record {
          asked_counted = ap length k.1 ∙ omega arith;
          sent_counted = ap (λ x. x.totals.sent) k.0 ∙ omega arith;
          replaced_counted = ap (λ x. x.totals.replaced) k.0 ∙ omega arith;
          confirmed_counted = omega (arith, ap (λ x. x.totals.confirmed) k.0, idle.0);
          failed_counted = omega (arith, ap (λ x. x.totals.failed) k.0, idle.2);
        },
      ))
      (λ f s' fe k.
        let (n, le, c) =
          send_loop-Booked opts args net opts.max_attempts 0 (start_nonce pre.count s.cached_nonce)
            f s' in
        (
          n,
          le,
          record {
            asked_counted = c.asked_counted ∙ ap (λ w. length w + tally is_asked net 0 n) k.1;
            sent_counted = omega (arith, c.sent_counted, ap (λ x. x.totals.sent) k.0);
            replaced_counted = omega (arith, c.replaced_counted, ap (λ x. x.totals.replaced) k.0);
            confirmed_counted =
                omega (arith, c.confirmed_counted, ap (λ x. x.totals.confirmed) k.0);
            failed_counted = omega (arith, c.failed_counted, ap (λ x. x.totals.failed) k.0);
          },
        ))
