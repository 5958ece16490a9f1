-- ===== src/Indexer/Engine.antt =====
-- apps/indexer/src/indexer.ts: `start` up to its loop, `tick`, `checkForReorg`, `indexRange` and
-- `wipeChain`. The code's `lastBlock` is -1 at least, so its successor `next_block` is kept instead.
-- An answer of the chain is `none` where the call throws; `commits` is that the transaction of the
-- batch succeeds, and `rolls_back` that the one of a rollback does, whose exception the check for a
-- reorganisation swallows. `logs` answers for `getLogs` and for the times of the logs' blocks, whose
-- failure throws; `senders` for `getTransaction`, whose failure is swallowed: the log then has no
-- sender, which the code writes as the empty string. The other statements of the database are taken
-- to succeed, and a batch to be of at least one block.
pub mod Sync
pub mod Instance
pub mod Advance
pub mod History
pub mod Mirror
pub mod Replica
pub mod CatchUp
pub mod Senders
pub mod Samples
pub mod Recovery
pub mod Reorg
use ponshot.Base.{
  ℕ, ◌+◌, ◌-◌, ◌*◌, Bool, true, false, not, ◌&&◌, Option, none, some, List, [], ltb, leb, ◌==◌,
  if◌then◌else◌, ◌∷◌, map,
}
use ponshot.Indexer.Store.{Store, DecodedLog, PriceSample}
use ponshot.Indexer.Handlers.{apply_logs, rollback_from}

-- The row of `indexer_state`.
pub record Cursor : Type 0 where
  pub next_block : ℕ
  pub last_block_hash : Option ℕ
  pub genesis_hash : Option ℕ

pub record IndexerConfig : Type 0 where
  pub prediction : ℕ
  pub start_block : ℕ
  pub confirmations : ℕ
  pub batch_size : ℕ
  pub reset : Bool

-- The indexer and its database: `market` is the market that the row of `markets` names, `cursor` the
-- row of `indexer_state`, `samples` the table `price_samples`, and `store` the other tables.
pub record Engine : Type 0 where
  pub next_block : ℕ
  pub head_block : ℕ
  pub caught_up : Bool
  pub genesis_hash : Option ℕ
  pub market : Option ℕ
  pub cursor : Option Cursor
  pub store : Store
  pub samples : List PriceSample

-- What the chain answers in one tick. `hash_before n` is the hash of the block before `n`.
pub record Chain : Type 0 where
  pub head : Option ℕ
  pub hash_before : ℕ → Option ℕ
  pub logs : ℕ → ℕ → Option (List DecodedLog)
  pub senders : ℕ → Option ℕ
  pub tip_hash : ℕ → Option ℕ
  pub commits : Bool
  pub rolls_back : Bool

abbrev pub empty_store : Store
empty_store = record {
  events = [];
  rounds = [];
  bets = [];
  claims = [];
  users = [];
  observations = [];
  executions = [];
  burn_events = [];
  burns = [];
}

-- The deletes of `wipeChain`, in their order. Its list of tables does not name `price_samples`.
abbrev pub delete_tables : Store → Store
delete_tables db = record db {
  events = [];
  bets = [];
  claims = [];
  executions = [];
  burn_events = [];
  burns = [];
  observations = [];
  rounds = [];
  users = [];
}

abbrev pub wipe_chain : Engine → Engine
wipe_chain e = record e { store = delete_tables e.store; cursor = none; market = none }

abbrev pub register_market : IndexerConfig → Engine → Engine
register_market cfg e = record e { market = some cfg.prediction }

-- The read model is discarded and built anew.
abbrev pub restart : IndexerConfig → Engine → Engine
restart cfg e = record (register_market cfg (wipe_chain e)) { next_block = cfg.start_block }

-- The height that a reorganisation found at the cursor rewinds to.
abbrev pub rewind_to : IndexerConfig → Cursor → ℕ
rewind_to cfg c =
    let height = c.next_block - 1 in
    let depth = cfg.confirmations * 4 in if ltb depth height then height - depth else 0

abbrev pub rewind : IndexerConfig → Cursor → Engine → Engine
rewind cfg c e =
    let height = rewind_to cfg c in
    record e {
      store = rollback_from height e.store;
      next_block = height;
      cursor = some (record c { next_block = height; last_block_hash = none });
    }

-- The comparison of the two hashes, either of which may be missing.
abbrev pub compare_hash :
    IndexerConfig → (rolls_back : Bool) → Cursor → Option ℕ → Option ℕ → Engine → Engine
compare_hash cfg rolls_back c none found e = e
compare_hash cfg rolls_back c (some stored) none e = e
compare_hash cfg rolls_back c (some stored) (some found) e =
    if found == stored then e else if rolls_back then rewind cfg c e else e

abbrev pub check_cursor : IndexerConfig → Chain → Option Cursor → Engine → Engine
check_cursor cfg ch none e = e
check_cursor cfg ch (some c) e =
    compare_hash cfg ch.rolls_back c c.last_block_hash (ch.hash_before c.next_block) e

unfoldable pub check_for_reorg : IndexerConfig → Chain → Engine → Engine
unfolding rollback_from
check_for_reorg cfg ch e = check_cursor cfg ch e.cursor e

-- `COALESCE` of the two hashes.
abbrev pub kept_genesis : Option ℕ → Option Cursor → Option ℕ
kept_genesis (some g) c = some g
kept_genesis none none = none
kept_genesis none (some c) = c.genesis_hash

-- The commit of a batch, with the cursor in the same transaction.
abbrev pub commit : ℕ → List DecodedLog → ℕ → Engine → Engine
commit to logs hash e = record e {
  store = apply_logs logs e.store;
  cursor = some (record {
    next_block = to + 1;
    last_block_hash = some hash;
    genesis_hash = kept_genesis e.genesis_hash e.cursor;
  });
  next_block = to + 1;
}

-- A log with the sender of its transaction, where the node tells it.
abbrev pub with_sender : (ℕ → Option ℕ) → DecodedLog → DecodedLog
with_sender senders ev = record ev { sender = senders ev.transaction_hash }

abbrev pub write_batch :
    Bool → (ℕ → Option ℕ) → ℕ → Option (List DecodedLog) → Option ℕ → Engine → Option Engine
write_batch commits senders to none hash e = none
write_batch commits senders to (some logs) none e = none
write_batch commits senders to (some logs) (some hash) e =
    if commits then some (commit to (map (with_sender senders) logs) hash e) else none

-- `none` is an exception, after which the batch is rolled back.
unfoldable pub index_range : Chain → ℕ → ℕ → Engine → Option Engine
unfolding apply_logs
index_range ch from to e = write_batch ch.commits ch.senders to (ch.logs from to) (ch.tip_hash to) e

abbrev pub safe_head : IndexerConfig → ℕ → ℕ
safe_head cfg head = if ltb cfg.confirmations head then head - cfg.confirmations else 0

-- The last block of the batch that starts at a block.
abbrev pub batch_end : IndexerConfig → ℕ → ℕ → ℕ
batch_end cfg safe from =
    let last = from + cfg.batch_size - 1 in if ltb safe last then safe else last

-- The end of a tick: whether it threw, and the indexer.
abbrev pub after_batch : ℕ → Engine → Option Engine → Bool × Engine
after_batch safe before none = (true, before)
after_batch safe before (some e) = (false, record e { caught_up = leb (safe + 1) e.next_block })

unfoldable pub advance : IndexerConfig → Chain → ℕ → Engine → Bool × Engine
unfolding check_for_reorg index_range
advance cfg ch safe e =
    if ltb safe e.next_block
    then (false, record e { caught_up = true })
    else let checked = check_for_reorg cfg ch e in
      let from = checked.next_block in
      after_batch safe checked (index_range ch from (batch_end cfg safe from) checked)

-- A cursor ahead of the head discards the read model.
abbrev pub see_head : IndexerConfig → ℕ → Engine → Engine
see_head cfg head e =
    let seen = record e { head_block = head } in
    if ltb (head + 1) e.next_block then restart cfg seen else seen

abbrev pub tick_at : IndexerConfig → Chain → Option ℕ → Engine → Bool × Engine
tick_at cfg ch none e = (true, e)
tick_at cfg ch (some head) e = advance cfg ch (safe_head cfg head) (see_head cfg head e)

unfoldable pub tick : IndexerConfig → Chain → Engine → Bool × Engine
unfolding advance
tick cfg ch e = tick_at cfg ch ch.head e

-- The loop of `start`, over the answers to its ticks.
unfoldable pub follow : IndexerConfig → List Chain → Engine → Engine
unfolding tick
follow cfg [] e = e
follow cfg (ch ∷ rest) e = follow cfg rest (tick cfg ch e).1

-- The check of the market's identity: `none` is the refusal.
abbrev pub admit_market : IndexerConfig → Option ℕ → Engine → Option Engine
admit_market cfg none e = some e
admit_market cfg (some previous) e =
    if previous == cfg.prediction then some e else if cfg.reset then some (wipe_chain e) else none

-- The check of the chain's identity, by the anchor's hash that is stored and the one that is read.
abbrev pub is_other_chain : Option ℕ → Option ℕ → Bool
is_other_chain (some anchor) (some stored) = not (stored == anchor)
is_other_chain _ _ = false

abbrev pub resume : IndexerConfig → Option ℕ → Option Cursor → Engine → Engine
resume cfg anchor none e = record e { next_block = cfg.start_block; genesis_hash = anchor }
resume cfg anchor (some c) e =
    if is_other_chain anchor c.genesis_hash
    then record (restart cfg e) { genesis_hash = anchor }
    else record e { next_block = c.next_block; genesis_hash = anchor }

abbrev pub resume_from : IndexerConfig → Option ℕ → Option Engine → Option Engine
resume_from cfg anchor none = none
resume_from cfg anchor (some e) =
    let registered = register_market cfg e in some (resume cfg anchor registered.cursor registered)

-- `start` up to its loop.
unfoldable pub boot : IndexerConfig → Option ℕ → Engine → Option Engine
boot cfg anchor e = resume_from cfg anchor (admit_market cfg e.market e)
