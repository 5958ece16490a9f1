-- ===== src/Examples/Engine.antt =====
-- An indexer that starts on an empty database, indexes a batch, and meets another instance.
use ponshot.Indexer.Engine.History.{History, span, ticked, restarted}
use ponshot.Base.Int.{pos}
use ponshot.Api.Live.Lag.{last_block, caught_up_health}
use ponshot.Api.Live.{health}
use mathlib.Core.List.{map-append}
use ponshot.Indexer.Engine.History.{Event}
use ponshot.Base.{
  Bool, Bool-cases, inr, Option, List, map, zero, ◌++◌, ◌∙◌, suc, ap, ◌-◌, ◌==◌, if◌then◌else◌, ◌+◌,
  ◌≤◌, ◌<◌, ◌≡◌, refl, inl, none, some, [], ◌∷◌, arith, true, false, ℕ,
}
use ponshot.Examples.Indexer.{batch, indexed, log_of}
use ponshot.Indexer.Engine.{
  IndexerConfig, Engine, Chain, empty_store, boot, follow, tick, check_for_reorg, Cursor,
  with_sender,
}
use ponshot.Indexer.Engine.Sync.{InStep, follow-boot-InStep}
use ponshot.Indexer.Engine.Advance.{Within, tick-Within, tick_progress}
use ponshot.Indexer.Store.{Body}
use ponshot.Indexer.Handlers.{apply_logs}
use ponshot.Sdk.Types.{Position}
use ponshot.Indexer.Engine.CatchUp.{Quiet, repeat, follow_catches_up}

abbrev pub config : IndexerConfig
config = record {
  prediction = 77;
  start_block = 1;
  confirmations = 2;
  batch_size = 10;
  reset = true;
}

abbrev blank : Engine
blank = record {
  next_block = 0;
  head_block = 0;
  caught_up = false;
  genesis_hash = none;
  market = none;
  cursor = none;
  store = empty_store;
  samples = [];
}

abbrev pub started : Engine
started = record blank { next_block = 1; market = some 77; genesis_hash = some 5 }

abbrev chain : Chain
chain = record {
  head = some 9;
  hash_before = λ n. some n;
  logs = λ from to. some batch;
  senders = λ tx. none;
  tip_hash = λ n. some n;
  commits = true;
  rolls_back = true;
}

-- A database of another market.
abbrev other : Engine
other = record blank {
  market = some 60;
  store = indexed;
  samples = record { ts = 600; spot = 4; twap = none; tick = pos 1 } ∷ [];
}

booted : boot config (some 5) blank ≡ some started
unfolding boot
booted = refl

follow-boot-InStep_test : InStep (follow config (chain ∷ chain ∷ []) started)
follow-boot-InStep_test =
    follow-boot-InStep config (some 5) (chain ∷ chain ∷ []) blank started booted

tick-Within_test : Within 7 started (tick config chain started).1
tick-Within_test = tick-Within config chain 9 started refl tt

tick_progress_test :
    let end = tick config chain started in
    (end.0 ≡ false) × (1 < end.1.next_block) × (end.1.next_block ≤ 1 + 10)
unfolding check_for_reorg
tick_progress_test =
    tick_progress config chain 9 7 batch started refl (omega arith) refl refl refl refl
      (omega arith)

abbrev emptied : Engine
emptied = record blank { next_block = 1; market = some 77; samples = other.samples }

-- A chain with one log in block 2, seen at block 9 with blocks up to 7 confirmed.
abbrev history : History
history = record {
  logs_of = λ n.
      if n == 2
      then record (log_of 2 (Body.bet Position.bull 55 7 40)) { sender = some 9 } ∷ []
      else [];
  hash_before = λ n. n;
}

abbrev pub quiet : Chain
quiet = record {
  head = some 9;
  hash_before = λ n. some n;
  logs = λ from to. some (span history from (to - from + 1));
  senders = λ tx. some 9;
  tip_hash = λ n. some (n + 1);
  commits = true;
  rolls_back = true;
}

quiet_log : (n : ℕ) → map (with_sender quiet.senders) (history.logs_of n) ≡ history.logs_of n
quiet_log n = elim (Bool-cases (n == 2)) [ inl hit ↦ rw hit refl | inr miss ↦ rw miss refl ]

quiet_senders :
    (from n : ℕ) → map (with_sender quiet.senders) (span history from n) ≡ span history from n
quiet_senders from zero = refl
quiet_senders from (suc n) =
    map-append (with_sender quiet.senders) (span history from n) (history.logs_of (from + n))
    ∙ ap (λ xs. xs ++ map (with_sender quiet.senders) (history.logs_of (from + n)))
        (quiet_senders from n)
    ∙ ap (λ xs. span history from n ++ xs) (quiet_log (from + n))

quiet-Quiet : Quiet history 9 quiet
quiet-Quiet = record {
  at_head = refl;
  all_logs = λ from n.
      let width : from + n - from + 1 ≡ suc n = omega arith in
      ap (λ k. some (span history from k)) width;
  all_senders = quiet_senders;
  all_hashes = λ n. refl;
  all_tips = λ n. refl;
  commits = refl;
}

-- The same answers, but for senders and commits.
abbrev shaky : Bool → (ℕ → Option ℕ) → Chain
shaky commits senders = record quiet { commits = commits; senders = senders }

-- A batch whose transaction fails, one whose senders the node does not tell, a restart, and a tick.
abbrev events : List Event
events =
    ticked (shaky false quiet.senders)
    ∷ ticked (shaky true (λ tx. none))
    ∷ restarted none
    ∷ ticked (shaky true quiet.senders)
    ∷ []

follow_catches_up_example :
    let end = follow config (repeat 3 quiet) started in
    (end.next_block ≡ 8) × (end.store ≡ apply_logs (span history 1 7) empty_store)
follow_catches_up_example =
    follow_catches_up history config 9 quiet 3 started quiet-Quiet (omega arith) (refl, refl)
      (omega arith) (omega arith)

caught_up_health_example :
    let end = follow config (repeat 3 quiet) started in
    let report = health (last_block end.cursor) (some 9) in
    (report.ok ≡ true)
    × ((c : Cursor) → end.cursor ≡ some c → report.indexer_lag_blocks ≡ some (pos 2))
caught_up_health_example =
    caught_up_health history config 9 quiet 3 started quiet-Quiet (omega arith) (refl, refl)
      (omega arith) (omega arith)
