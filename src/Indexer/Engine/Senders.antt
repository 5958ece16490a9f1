-- ===== src/Indexer/Engine/Senders.antt =====
-- What the senders of the logs have to do with the tables: they stand in the executions alone.
use ponshot.Base.{
  ◌≡◌, refl, sym, ap, ◌∙◌, Bool, true, false, Bool-cases, inl, inr, List, [], ◌∷◌, map, none, ℕ,
  Option,
}
use ponshot.Base.Int.{ℤ}
use ponshot.Indexer.Table.{upsert, delete_where}
use ponshot.Indexer.Rows.{same_execution, keep_old, outcome_name}
use ponshot.Indexer.Engine.{with_sender}
use ponshot.Indexer.Store.{Store, DecodedLog, Body, ExecutionRow, ExecutionAction, OutcomeName}
use ponshot.Indexer.Statements.{
  record_event, observe, record_execution, add_burn_event, recompute_round_totals, recompute_user,
  start_round, update_round, put_bet, put_claim, add_burn, mark_winners,
}
use ponshot.Indexer.Handlers.{
  when, settle_by, apply_settled, apply_body, apply_log, apply_logs, rollback_from,
}

abbrev pub unsigned : DecodedLog → DecodedLog
unsigned ev = record ev { sender = none }

-- Lists of logs that differ in nothing but the senders.
abbrev pub ButSenders : List DecodedLog → List DecodedLog → Type 0
ButSenders xs ys = map unsigned xs ≡ map unsigned ys

abbrev pub anonymous : ExecutionRow → ExecutionRow
anonymous r = record r { sender = none }

pub with_sender-ButSenders :
    (senders : ℕ → Option ℕ) (xs : List DecodedLog) → ButSenders (map (with_sender senders) xs) xs
with_sender-ButSenders senders [] = refl
with_sender-ButSenders senders (x ∷ xs) =
    ap (λ rest. unsigned x ∷ rest) (with_sender-ButSenders senders xs)

-- The tables, but for the column `sender` of the executions.
abbrev pub without_senders : Store → Store
without_senders db = record db { executions = map anonymous db.executions }

anonymous-upsert :
    (new : ExecutionRow) (rows : List ExecutionRow)
    → map anonymous (upsert same_execution keep_old new rows)
      ≡ upsert same_execution keep_old (anonymous new) (map anonymous rows)
unfolding upsert
anonymous-upsert new [] = refl
anonymous-upsert new (r ∷ rs) = elim (Bool-cases (same_execution r new)) [
  | inl hit ↦ rw hit refl
  | inr miss ↦ rw miss (ap (λ xs. anonymous r ∷ xs) (anonymous-upsert new rs))
]

without_senders-record_execution :
    (ev : DecodedLog) (action : ExecutionAction) (epoch : ℕ) (db : Store)
    → without_senders (record_execution ev action epoch db)
      ≡ record_execution (unsigned ev) action epoch (without_senders db)
unfolding record_execution
without_senders-record_execution ev action epoch db =
    ap (λ rows. record db { executions = rows }) (anonymous-upsert _ db.executions)

without_senders-when :
    (c : Bool) (change : Store → Store) (db : Store)
    → without_senders (change db) ≡ change (without_senders db)
    → without_senders (when c change db) ≡ when c change (without_senders db)
without_senders-when true change db e = e
without_senders-when false change db e = refl

without_senders-settle_by :
    (observing accruing winning : Bool) (ev : DecodedLog) (epoch price : ℕ) (tick : ℤ)
    (outcome : OutcomeName) (base reward fee executed_at instant : ℕ) (db : Store)
    → without_senders (
        settle_by observing accruing winning ev epoch price tick outcome base reward fee executed_at
          instant db)
      ≡ settle_by observing accruing winning
          (unsigned ev)
          epoch
          price
          tick
          outcome
          base
          reward
          fee
          executed_at
          instant
          (without_senders db)
unfolding settle_by observe mark_winners update_round add_burn_event
without_senders-settle_by true true true ev epoch price tick outcome base reward fee executed_at
      instant db =
    without_senders-record_execution ev ExecutionAction.settle epoch _
without_senders-settle_by true true false ev epoch price tick outcome base reward fee executed_at
      instant db =
    without_senders-record_execution ev ExecutionAction.settle epoch _
without_senders-settle_by true false true ev epoch price tick outcome base reward fee executed_at
      instant db =
    without_senders-record_execution ev ExecutionAction.settle epoch _
without_senders-settle_by true false false ev epoch price tick outcome base reward fee executed_at
      instant db =
    without_senders-record_execution ev ExecutionAction.settle epoch _
without_senders-settle_by false true true ev epoch price tick outcome base reward fee executed_at
      instant db =
    without_senders-record_execution ev ExecutionAction.settle epoch _
without_senders-settle_by false true false ev epoch price tick outcome base reward fee executed_at
      instant db =
    without_senders-record_execution ev ExecutionAction.settle epoch _
without_senders-settle_by false false true ev epoch price tick outcome base reward fee executed_at
      instant db =
    without_senders-record_execution ev ExecutionAction.settle epoch _
without_senders-settle_by false false false ev epoch price tick outcome base reward fee executed_at
      instant db =
    without_senders-record_execution ev ExecutionAction.settle epoch _

without_senders-apply_body :
    (ev : DecodedLog) (body : Body) (db : Store)
    → without_senders (apply_body ev body db) ≡ apply_body (unsigned ev) body (without_senders db)
unfolding apply_body start_round observe update_round add_burn_event recompute_user
    recompute_round_totals put_bet put_claim add_burn apply_settled
without_senders-apply_body ev (Body.round_started epoch start lock close) db = refl
without_senders-apply_body ev (Body.round_locked epoch price tick instant executed_at) db =
    without_senders-record_execution ev ExecutionAction.lock epoch _
without_senders-apply_body ev (Body.round_settled epoch price tick code base reward fee executed_at)
      db =
    without_senders-settle_by _ _ _ ev epoch price tick (outcome_name code) base reward fee
      executed_at _ db
without_senders-apply_body ev (Body.round_cancelled epoch reason) db =
    without_senders-record_execution ev ExecutionAction.cancel epoch _
without_senders-apply_body ev (Body.bet position account epoch amount) db = refl
without_senders-apply_body ev (Body.collected kind account epoch amount) db = refl
without_senders-apply_body ev (Body.swept name to amount) db = refl
without_senders-apply_body ev (Body.bought_and_burned index token eth_in burned floor) db = refl
without_senders-apply_body ev (Body.config name payload) db = refl
without_senders-apply_body ev (Body.other name payload) db = refl

pub without_senders-apply_logs :
    (evs : List DecodedLog) (db : Store)
    → without_senders (apply_logs evs db) ≡ apply_logs (map unsigned evs) (without_senders db)
unfolding apply_logs apply_log record_event
without_senders-apply_logs [] db = refl
without_senders-apply_logs (ev ∷ evs) db =
    without_senders-apply_logs evs (apply_log ev db)
    ∙ ap (apply_logs (map unsigned evs))
        (without_senders-apply_body ev ev.body (record_event ev db))

-- What logs that differ in nothing but the senders make of tables that do.
pub without_senders_local :
    (xs ys : List DecodedLog) (a b : Store)
    → ButSenders xs ys
    → without_senders a ≡ without_senders b
    → without_senders (apply_logs xs a) ≡ without_senders (apply_logs ys b)
without_senders_local xs ys a b logs e =
    without_senders-apply_logs xs a
    ∙ ap (λ evs. apply_logs evs (without_senders a)) logs
    ∙ ap (apply_logs (map unsigned ys)) e
    ∙ sym (without_senders-apply_logs ys b)

anonymous-delete :
    (test : ExecutionRow → Bool) (rows : List ExecutionRow)
    → ((r : ExecutionRow) → test (anonymous r) ≡ test r)
    → map anonymous (delete_where test rows) ≡ delete_where test (map anonymous rows)
unfolding delete_where
anonymous-delete test [] e = refl
anonymous-delete test (r ∷ rs) e = elim (Bool-cases (test r)) [
  | inl hit ↦ rw (hit, e r, hit) (anonymous-delete test rs e)
  | inr miss ↦ rw (miss, e r, miss) (ap (λ xs. anonymous r ∷ xs) (anonymous-delete test rs e))
]

pub without_senders-rollback_from :
    (b : ℕ) (db : Store)
    → without_senders (rollback_from b db) ≡ rollback_from b (without_senders db)
unfolding rollback_from
without_senders-rollback_from b db =
    ap (λ rows. record (rollback_from b db) { executions = rows })
      (anonymous-delete _ db.executions (λ r. refl))
