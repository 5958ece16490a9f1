-- ===== src/Indexer/Handlers/Reorg.antt =====
-- The five tables whose rows carry a block number, over a reorganisation of the chain: what each log
-- adds to them, and what a rollback with a replay makes of them.
pub mod High
use ponshot.Base.Int.{ℤ}
use ponshot.Indexer.Handlers.Reorg.High.{put_rows}
use ponshot.Base.Every.{append-All}
use ponshot.Base.{
  ℕ, ◌≤◌, ◌<◌, ◌≡◌, refl, sym, ap, ◌∙◌, ◌⊎◌, inl, inr, Bool, true, false, Bool-cases, some, none,
  List, [], ◌∷◌, ◌++◌, All, ltb, leb, arith, if◌then◌else◌, Option,
}
use ponshot.Indexer.Table.{upsert, delete_where}
use ponshot.Indexer.Rows.{
  keep_old, same_event, same_bet, same_claim, same_execution, same_burn_event, merge_bet,
  merge_claim, event_row, bet_row, claim_row, is_decided, outcome_name, close_of,
}
use ponshot.Indexer.Store.{
  Store, DecodedLog, Body, EventRow, BetRow, ClaimRow, ExecutionRow, ExecutionAction, BurnEventRow,
  BurnKind, Detail, OutcomeName,
}
use ponshot.Indexer.Statements.{
  record_event, observe, record_execution, add_burn_event, recompute_round_totals, recompute_user,
  start_round, update_round, put_bet, put_claim, add_burn, mark_winners,
}
use ponshot.Indexer.Handlers.{
  when, settle_by, apply_settled, apply_body, apply_log, apply_logs, rollback_from,
}

pub record Tables : Type 0 where
  pub events : List EventRow
  pub bets : List BetRow
  pub claims : List ClaimRow
  pub executions : List ExecutionRow
  pub burn_events : List BurnEventRow

abbrev pub tables : Store → Tables
tables db = record {
  events = db.events;
  bets = db.bets;
  claims = db.claims;
  executions = db.executions;
  burn_events = db.burn_events;
}

-- The rows that a log adds to each table.
abbrev pub bets_of : DecodedLog → Body → List BetRow
bets_of ev (Body.bet position account epoch amount) = bet_row ev position account epoch amount ∷ []
bets_of ev _ = []

abbrev pub claims_of : DecodedLog → Body → List ClaimRow
claims_of ev (Body.collected kind account epoch amount) =
    claim_row ev kind account epoch amount ∷ []
claims_of ev _ = []

abbrev execution : DecodedLog → ExecutionAction → ℕ → ExecutionRow
execution ev action epoch = record {
  tx_hash = ev.transaction_hash;
  block_number = ev.block_number;
  sender = ev.sender;
  action = action;
  epoch = epoch;
  block_time = ev.block_time;
}

abbrev pub executions_of : DecodedLog → Body → List ExecutionRow
executions_of ev (Body.round_locked epoch price tick instant executed_at) =
    execution ev ExecutionAction.lock epoch ∷ []
executions_of ev (Body.round_settled epoch price tick code base reward fee executed_at) =
    execution ev ExecutionAction.settle epoch ∷ []
executions_of ev (Body.round_cancelled epoch reason) =
    execution ev ExecutionAction.cancel epoch ∷ []
executions_of ev _ = []

abbrev burn_event : DecodedLog → BurnKind → Option ℕ → Detail → BurnEventRow
burn_event ev kind amount detail = record {
  tx_hash = ev.transaction_hash;
  log_index = ev.log_index;
  block_number = ev.block_number;
  kind = kind;
  amount = amount;
  detail = detail;
  block_time = ev.block_time;
}

abbrev pub burn_events_of : DecodedLog → Body → List BurnEventRow
burn_events_of ev (Body.round_settled epoch price tick code base reward fee executed_at) =
    if ltb 0 fee
    then burn_event ev BurnKind.fee_accrued (some fee) (Detail.of_epoch epoch) ∷ []
    else []
burn_events_of ev (Body.swept name to amount) =
    burn_event ev BurnKind.swept_to_burner (some amount) (Detail.of_recipient to) ∷ []
burn_events_of ev (Body.config name payload) =
    burn_event ev (BurnKind.configured name) none (Detail.of_arguments payload) ∷ []
burn_events_of ev _ = []

-- The effect of a log on the five tables: a function of them and of the log alone.
abbrev pub log_tables : DecodedLog → Tables → Tables
log_tables ev t = record {
  events = put_rows same_event keep_old (event_row ev ∷ []) t.events;
  bets = put_rows same_bet merge_bet (bets_of ev ev.body) t.bets;
  claims = put_rows same_claim merge_claim (claims_of ev ev.body) t.claims;
  executions = put_rows same_execution keep_old (executions_of ev ev.body) t.executions;
  burn_events = put_rows same_burn_event keep_old (burn_events_of ev ev.body) t.burn_events;
}

abbrev body_tables : DecodedLog → Body → Tables → Tables
body_tables ev body t = record {
  events = t.events;
  bets = put_rows same_bet merge_bet (bets_of ev body) t.bets;
  claims = put_rows same_claim merge_claim (claims_of ev body) t.claims;
  executions = put_rows same_execution keep_old (executions_of ev body) t.executions;
  burn_events = put_rows same_burn_event keep_old (burn_events_of ev body) t.burn_events;
}

when-tables :
    (c : Bool) (change : Store → Store) (db : Store)
    → tables (change db) ≡ tables db
    → tables (when c change db) ≡ tables db
when-tables true change db e = e
when-tables false change db e = refl

abbrev accrue : Bool → BurnEventRow → Tables → Tables
accrue c row t = record t {
  burn_events = put_rows same_burn_event keep_old (if c then row ∷ [] else []) t.burn_events;
}

when_accrued :
    (c : Bool) (ev : DecodedLog) (kind : BurnKind) (amount : Option ℕ) (detail : Detail)
    (db : Store)
    → tables (when c (add_burn_event ev kind amount detail) db)
      ≡ accrue c (burn_event ev kind amount detail) (tables db)
unfolding add_burn_event
when_accrued true ev kind amount detail db = refl
when_accrued false ev kind amount detail db = refl

abbrev put_execution : ExecutionRow → Tables → Tables
put_execution row t = record t { executions = upsert same_execution keep_old row t.executions }

settle_by-tables :
    (observing accruing winning : Bool) (ev : DecodedLog) (epoch price : ℕ) (tick : ℤ)
    (outcome : OutcomeName) (base reward fee executed_at instant : ℕ) (db : Store)
    → tables (
        settle_by observing accruing winning ev epoch price tick outcome base reward fee executed_at
          instant db)
      ≡ put_execution (execution ev ExecutionAction.settle epoch) (
          accrue accruing
            (burn_event ev BurnKind.fee_accrued (some fee) (Detail.of_epoch epoch))
            (tables db))
unfolding settle_by record_execution observe mark_winners update_round
settle_by-tables observing accruing winning ev epoch price tick outcome base reward fee executed_at
      instant db =
    ap (put_execution (execution ev ExecutionAction.settle epoch)) (
      when-tables winning (mark_winners epoch) _ refl
      ∙ when_accrued accruing ev BurnKind.fee_accrued (some fee) (Detail.of_epoch epoch) _
      ∙ ap (accrue accruing (burn_event ev BurnKind.fee_accrued (some fee) (Detail.of_epoch epoch)))
          (when-tables observing _ _ refl))

apply_body-tables :
    (ev : DecodedLog) (body : Body) (db : Store)
    → tables (apply_body ev body db) ≡ body_tables ev body (tables db)
unfolding apply_body start_round record_execution observe update_round add_burn_event recompute_user
    recompute_round_totals put_bet put_claim add_burn apply_settled
apply_body-tables ev (Body.round_started epoch start lock close) db = refl
apply_body-tables ev (Body.round_locked epoch price tick instant executed_at) db = refl
apply_body-tables ev (Body.round_settled epoch price tick code base reward fee executed_at) db =
    settle_by-tables _ _ _ ev epoch price tick (outcome_name code) base reward fee executed_at _ db
apply_body-tables ev (Body.round_cancelled epoch reason) db = refl
apply_body-tables ev (Body.bet position account epoch amount) db = refl
apply_body-tables ev (Body.collected kind account epoch amount) db = refl
apply_body-tables ev (Body.swept name to amount) db = refl
apply_body-tables ev (Body.bought_and_burned index token eth_in burned floor) db = refl
apply_body-tables ev (Body.config name payload) db = refl
apply_body-tables ev (Body.other name payload) db = refl

apply_log-tables :
    (ev : DecodedLog) (db : Store) → tables (apply_log ev db) ≡ log_tables ev (tables db)
unfolding apply_log record_event
apply_log-tables ev db = apply_body-tables ev ev.body (record_event ev db)

abbrev pub logs_tables : List DecodedLog → Tables → Tables
logs_tables [] t = t
logs_tables (ev ∷ evs) t = logs_tables evs (log_tables ev t)

pub apply_logs-tables :
    (evs : List DecodedLog) (db : Store) → tables (apply_logs evs db) ≡ logs_tables evs (tables db)
unfolding apply_logs
apply_logs-tables [] db = refl
apply_logs-tables (ev ∷ evs) db =
    apply_logs-tables evs (apply_log ev db) ∙ ap (logs_tables evs) (apply_log-tables ev db)
