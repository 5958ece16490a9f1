-- ===== src/Examples/Keeper.antt =====
-- A keeper that sends one transaction, replaces it once, and remembers a cancelled round.
use ponshot.Keeper.Tx.Fees.{pass_outbids, Escalated, send_escalates}
use ponshot.Keeper.Tx.Pass.{sender_of}
use ponshot.Base.Text.{codes}
use ponshot.Keeper.Tx.Accounts.{Booked, send-Booked}
use ponshot.Keeper.Tx.{
  TxSenderOptions, SendArgs, FeeSettings, Receipt, Reply, Preflight, Sender, send, bump_fees,
  PassReplies, ok, check_balance, pass, simulate, thrown, dispatch, again, next_nonce, enter_loop,
  send_loop,
}
use ponshot.Keeper.Reason.{Caught, is_benign, error, describe_revert, falsy}
use ponshot.Keeper.Tx.Nonce.{Quiet, Wrote, send_same_nonce}
use ponshot.Keeper.State.Bounds.{IsBounded, mark_handled_lem, is_handled-mark_handled}
use ponshot.Keeper.State.{is_handled, cancel_round, empty_state, mark_handled, KeeperState, update}
use ponshot.Keeper.State.Disk.{
  Disk, load, Fault, flush_all, none_at_all, last_saved, load-flush_all, during_write,
}
use ponshot.Base.{
  refl, ℕ, List, false, some, true, none, arith, if◌then◌else◌, [], ◌≡◌, ◌==◌, ◌∷◌, ◌<◌,
}

abbrev pub opts : TxSenderOptions
opts = record { bump_percent = 25; max_attempts = 5; min_balance_wei = 100; dry_run = false }

abbrev pub args : SendArgs
args = record { action = cancel_round; epoch = some 7 }

abbrev fees : FeeSettings
fees = record { max_fee_per_gas = some 1000; max_priority_fee_per_gas = some 10 }

abbrev late : Caught
late = error none none (some (codes "timed out")) none falsy []

abbrev good : Receipt
good = record { success = true; gas_used = 50; effective_gas_price = some 900 }

-- The first pass times out and the second is confirmed.
abbrev replies : Reply Receipt → PassReplies
replies receipt = record {
  gas = ok 100;
  hash = ok 12;
  receipt = receipt;
  count = ok 4;
  submitted_at = 1;
  confirmed_at = 2;
}

abbrev pub net : ℕ → PassReplies
net n = if n == 1 then replies (thrown late) else replies (ok good)

abbrev pub pre : Preflight
pre = record { balance = ok 500; simulation = ok tt; count = ok 4; fees = ok fees }

abbrev pub fresh : Sender
fresh = record { cached_nonce = none; state = empty_state; wire = [] }

net-Quiet : Quiet net
net-Quiet n = ground arith

sent_twice :
    (send opts args pre net fresh).1.state.totals
    ≡ record { sent = 2; confirmed = 1; failed = 0; replaced = 1 }
unfolding send check_balance simulate dispatch next_nonce enter_loop send_loop pass update
sent_twice = refl

next_cached : (send opts args pre net fresh).1.cached_nonce ≡ some 5
unfolding send check_balance simulate dispatch next_nonce enter_loop send_loop pass update
next_cached = refl

nothing_to_do :
    is_benign
      (describe_revert (error (some (codes "reverted: RoundNotOpen(7)")) none none none falsy []))
    ≡ true
unfolding is_benign describe_revert
nothing_to_do = refl

send_same_nonce_example : Wrote 5 4 fresh (send opts args pre net fresh).1
send_same_nonce_example = send_same_nonce opts args net pre fresh net-Quiet

send-Booked_example : let end = send opts args pre net fresh in Booked 5 net 0 end.0 fresh end.1
send-Booked_example = send-Booked opts args pre net fresh

send_escalates_example : Escalated fees fresh (send opts args pre net fresh).1
send_escalates_example = send_escalates opts args pre net fresh {f = fees} refl

pass_outbids_test :
    let raised = bump_fees fees 25 in
    (pass opts args 1 (replies (thrown late)) 4 fees fresh
      ≡ again 4 raised (sender_of (pass opts args 1 (replies (thrown late)) 4 fees fresh)))
    × ((w : ℕ) × (raised.max_fee_per_gas ≡ some w) × (1000 < w))
pass_outbids_test =
    pass_outbids opts args 1 (replies (thrown late)) 4 fees fresh 1000 {gas = 100} {hash = 12}
      {late = late} refl refl refl refl (omega arith)

pub empty-IsBounded : IsBounded empty_state
empty-IsBounded = omega arith

mark_handled_lem_example :
    IsBounded (mark_handled 7 1 empty_state) × (is_handled 7 (mark_handled 7 1 empty_state) ≡ true)
mark_handled_lem_example = mark_handled_lem 7 1 empty_state empty-IsBounded

is_handled_test :
    is_handled 8 (mark_handled 7 1 empty_state)
    ≡ (if 7 == 8 then true else is_handled 8 empty_state)
is_handled_test = is_handled-mark_handled 7 1 8 empty_state (omega arith)

abbrev history : List (Fault × KeeperState)
history =
    (none_at_all, record empty_state { last_seen_epoch = 3 })
    ∷ (during_write, record empty_state { last_seen_epoch = 4 })
    ∷ []

abbrev blank : Disk
blank = record { file = none; tmp = none }

load-flush_all_example :
    load empty_state (flush_all history blank) ≡ last_saved history (load empty_state blank)
load-flush_all_example = load-flush_all history empty_state blank
