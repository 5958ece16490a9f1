-- ===== src/Examples/Reorg.antt =====
-- A chain whose block 15 is replaced after the indexer has followed it to block 19.
use ponshot.Indexer.Engine.{with_sender}
use ponshot.Indexer.Engine.Recovery.{known_tables}
use ponshot.Indexer.Engine.Senders.{ButSenders, unsigned, with_sender-ButSenders}
use ponshot.Base.{
  map, ◌∙◌, sym, some_inj, ℕ, ◌+◌, ◌-◌, ◌<◌, ◌≡◌, refl, ap, suc, ◌==◌, Bool-cases, inl, inr, true,
  false, some, none, List, [], ◌∷◌, All, arith, if◌then◌else◌,
}
use ponshot.Sdk.Types.{Position}
use ponshot.Indexer.Store.{Body, DecodedLog}
use ponshot.Indexer.Handlers.{apply_logs, apply_log, apply_body}
use ponshot.Indexer.Statements.{record_event, put_bet, recompute_user, recompute_round_totals}
use ponshot.Indexer.Table.{upsert}
use ponshot.Indexer.Engine.{IndexerConfig, Engine, Chain, Cursor, empty_store}
use ponshot.Indexer.Engine.History.{History, span, Answers, ticked, restarted, live}
use ponshot.Indexer.Engine.Reorg.{Fork, live_recovers}
use ponshot.Indexer.Engine.Reorg.Unnoticed.{tick-check_for_reorg_unnoticed}
use ponshot.Indexer.Engine.{tick, check_for_reorg}
use ponshot.Examples.Indexer.{log_of}

abbrev config : IndexerConfig
config = record {
  prediction = 77;
  start_block = 1;
  confirmations = 2;
  batch_size = 10;
  reset = true;
}

-- A bet in block 2, and one in a later block.
abbrev bets_in : ℕ → (late n : ℕ) → List DecodedLog
bets_in amount late n =
    if n == 2
    then log_of n (Body.bet Position.bull 55 7 40) ∷ []
    else if n == late
    then log_of n (Body.bet Position.bear 56 7 amount) ∷ []
    else []

abbrev orphaned : History
orphaned = record { logs_of = bets_in 8 15; hash_before = λ n. n }

abbrev settled : History
settled = record { logs_of = bets_in 9 16; hash_before = λ n. if n == 20 then 99 else n }

abbrev cursor : Cursor
cursor = record { next_block = 20; last_block_hash = some 20; genesis_hash = some 5 }

abbrev engine : Engine
engine = record {
  next_block = 20;
  head_block = 21;
  caught_up = true;
  genesis_hash = some 5;
  market = some 77;
  cursor = some cursor;
  store = apply_logs (span orphaned 1 19) empty_store;
  samples = [];
}

abbrev chain : Chain
chain = record {
  head = some 30;
  hash_before = λ n. some (settled.hash_before n);
  logs = λ from to. some (span settled from (to - from + 1));
  senders = λ tx. none;
  tip_hash = λ n. some (settled.hash_before (n + 1));
  commits = true;
  rolls_back = true;
}

chain-Answers : Answers ButSenders settled chain
chain-Answers = record {
  true_logs = λ from n {logs} e.
      let width : from + n - from + 1 ≡ suc n = omega arith in
      with_sender-ButSenders chain.senders logs
      ∙ ap (map unsigned) (sym (some_inj e) ∙ ap (span settled from) width);
  true_hash = λ n e. sym (some_inj e);
  true_tip = λ n e. sym (some_inj e);
}

placed : (n : ℕ) → All (λ ev. ev.block_number ≡ n) (bets_in 8 15 n)
placed n = elim (Bool-cases (n == 2)) [
  | inl early ↦ rw early (refl, tt)
  | inr rest ↦ elim (Bool-cases (n == 15)) [
    | inl late ↦ rw (rest, late) (refl, tt)
    | inr idle ↦ rw (rest, idle) tt
  ]
]

agree : (n : ℕ) → n < 11 → bets_in 8 15 n ≡ bets_in 9 16 n
agree n low =
    let not_15 : (n == 15) ≡ false = ground (arith, low) in
    let not_16 : (n == 16) ≡ false = ground (arith, low) in rw (not_15, not_16) refl

forked : Fork orphaned settled 11
forked = record { agree = agree; placed = placed }

live_recovers_example :
    let end = live config (ticked chain ∷ restarted none ∷ ticked chain ∷ []) engine in
    (n : ℕ) × (end.next_block ≡ 1 + n)
    × (known_tables end.store ≡ known_tables (apply_logs (span settled 1 n) empty_store))
unfolding apply_logs apply_log apply_body record_event put_bet recompute_user recompute_round_totals
    upsert
live_recovers_example =
    live_recovers orphaned settled config chain (restarted none ∷ ticked chain ∷ []) engine cursor
      30 20 99 (omega arith) ((19, refl, refl, λ x e. sym (some_inj e)), refl) refl refl refl
      (omega arith) refl refl refl (omega arith) forked
      (record { bets = ((refl, tt), tt); claims = tt }, tt) chain-Answers (tt, (chain-Answers, tt))

abbrev broken : Chain
broken = record chain { rolls_back = false }

-- The bet of block 15 stays.
tick-check_for_reorg_unnoticed_example :
    let after = (tick config broken engine).1 in
    (after.store ≡ apply_logs (map (with_sender chain.senders) (span settled 20 9)) engine.store)
    × (check_for_reorg config chain after ≡ after)
tick-check_for_reorg_unnoticed_example =
    tick-check_for_reorg_unnoticed config broken chain cursor engine 30 20 99 29 (span settled 20 9)
      refl refl refl (omega arith) refl refl refl refl refl refl refl
