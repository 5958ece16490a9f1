-- ===== src/Keeper/Tx/Limits.antt =====
-- What `send` keeps of the durable state.
use ponshot.Base.{ℕ, zero, suc, ◌+◌, ◌≡◌, inl, inr, Bool-cases, arith}
use ponshot.Keeper.State.Bounds.{IsBounded, update-IsBounded}
use ponshot.Keeper.Reason.{Caught}
use ponshot.Keeper.Tx.Pass.{sender_of, Next-cases, send_loop-stop, send_loop-again}
use ponshot.Keeper.Tx.Rules.{send_rule, start_nonce}
use ponshot.Keeper.Tx.{
  TxSenderOptions, SendArgs, Reply, Reply-cases, PassReplies, Preflight, FeeSettings, Sender,
  on_error, await_receipt, pass, send_loop, send,
}

module _ (opts : TxSenderOptions) (args : SendArgs) where
  on_error_state :
      (n : ℕ) (count : Reply ℕ) (e : Caught) (nonce : ℕ) (fees : FeeSettings) (s : Sender)
      → (sender_of (on_error opts n count e nonce fees s)).state ≡ s.state
  unfolding on_error
  on_error_state n count e nonce fees s = ground arith

  await_receipt-IsBounded :
      (n : ℕ) (r : PassReplies) (hash nonce : ℕ) (fees : FeeSettings) (s : Sender)
      → IsBounded s.state
      → IsBounded (sender_of (await_receipt opts n r hash nonce fees s)).state
  unfolding await_receipt
  await_receipt-IsBounded n r hash nonce fees s b = elim (Reply-cases r.receipt) [
    | inl (receipt, e) ↦ elim (Bool-cases receipt.success) [
      | inl good ↦ rw (e, good) (update-IsBounded _ s.state b.handled_bounded)
      | inr bad ↦ rw (e, bad) (update-IsBounded _ s.state b.handled_bounded)
    ]
    | inr (late, e) ↦ rw e (update-IsBounded _ s.state b.handled_bounded)
  ]

  pass-IsBounded :
      (n : ℕ) (r : PassReplies) (nonce : ℕ) (fees : FeeSettings) (s : Sender)
      → IsBounded s.state
      → IsBounded (sender_of (pass opts args n r nonce fees s)).state
  unfolding pass
  pass-IsBounded n r nonce fees s b = elim (Reply-cases r.gas) [
    | inr (x, e) ↦ rw (e, on_error_state n r.count x nonce fees s) b
    | inl (gas, e) ↦ elim (Reply-cases r.hash) [
      | inr (x, h) ↦ rw (e, h, on_error_state n r.count x nonce fees) b
      | inl (hash, h) ↦
          rw (e, h)
            (await_receipt-IsBounded n r hash nonce fees _
              (update-IsBounded _ s.state b.handled_bounded))
    ]
  ]

  send_loop-IsBounded :
      (net : ℕ → PassReplies) (left attempts nonce : ℕ) (fees : FeeSettings) (s : Sender)
      → IsBounded s.state
      → IsBounded (send_loop opts args net left attempts nonce fees s).1.state
  unfolding send_loop
  send_loop-IsBounded net zero attempts nonce fees s b =
      update-IsBounded _ s.state b.handled_bounded
  send_loop-IsBounded net (suc left) attempts nonce fees s b =
      let r = net (attempts + 1) in
      let kept = pass-IsBounded (attempts + 1) r nonce fees s b in
      elim (Next-cases (pass opts args (attempts + 1) r nonce fees s)) [
        | inl (o, s', e) ↦
            rw (send_loop-stop opts args net left attempts nonce fees s e) (rw e at kept)
        | inr (n', f', s', e) ↦
            rw (send_loop-again opts args net left attempts nonce fees s e)
              (send_loop-IsBounded net left (attempts + 1) n' f' s' (rw e at kept))
      ]

pub send-IsBounded :
    (opts : TxSenderOptions) (args : SendArgs) (pre : Preflight) (net : ℕ → PassReplies)
    (s : Sender)
    → IsBounded s.state
    → IsBounded (send opts args pre net s).1.state
send-IsBounded opts args pre net s b =
    send_rule opts args pre net s (λ end. IsBounded end.1.state) (λ o s' k idle. rw (k.0) b)
      (λ f s' fe k.
        send_loop-IsBounded opts args net opts.max_attempts 0 (start_nonce pre.count s.cached_nonce)
          f s' (rw (k.0) b))
