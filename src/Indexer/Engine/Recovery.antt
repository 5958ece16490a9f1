-- ===== src/Indexer/Engine/Recovery.antt =====
-- A rollback takes back what the logs of orphaned blocks did to the five tables.
pub mod Logs
use ponshot.Indexer.Engine.Recovery.Logs.{
  below_tables, rollback_from-tables, IsBelow, below_tables-Low, IsFresh, logs_tables_high,
  logs_tables-IsBelow,
}
use ponshot.Indexer.Engine.History.{apply_logs-append}
use ponshot.Base.Every.{All-map}
use ponshot.Indexer.Engine.Senders.{
  unsigned, ButSenders, without_senders, without_senders-apply_logs,
}
use ponshot.Base.{
  map, ℕ, ◌<◌, ◌≡◌, refl, inl, inr, All, Bool-cases, ltb, false, Bool, ◌≤◌, List, ◌∷◌, ◌⊎◌, ◌∙◌,
  ◌++◌, [], ap, sym,
}
use ponshot.Indexer.Rows.{
  keep_old, same_event, same_bet, same_claim, same_execution, same_burn_event, merge_bet,
  merge_claim, event_row,
}
use ponshot.Indexer.Store.{Store, DecodedLog, Body}
use ponshot.Indexer.Handlers.{rollback_from, apply_logs}
use ponshot.Indexer.Engine.{empty_store}
use ponshot.Indexer.Handlers.Rollback.{below, delete-below}
use ponshot.Indexer.Handlers.Reorg.{
  Tables, tables, bets_of, claims_of, executions_of, burn_events_of, log_tables, logs_tables,
  apply_logs-tables,
}
use ponshot.Indexer.Handlers.Reorg.High.{below-Low, Spares, put_rows_high, put_rows-Low}

-- To roll back to a block takes back what the logs of that block and of later ones did to the five
-- tables.
pub rollback_undoes :
    (b : ℕ) (kept orphaned : List DecodedLog)
    → All (λ ev. ev.block_number < b) kept
    → All (λ ev. b ≤ ev.block_number) orphaned
    → All (IsFresh (tables (apply_logs kept empty_store))) orphaned
    → tables (rollback_from b (apply_logs (kept ++ orphaned) empty_store))
      ≡ tables (apply_logs kept empty_store)
rollback_undoes b kept orphaned low high fresh =
    let before = apply_logs kept empty_store in
    let nothing : IsBelow b (tables empty_store) = record {
      events = tt;
      bets = tt;
      claims = tt;
      executions = tt;
      burn_events = tt;
    } in
    let is_below : IsBelow b (tables before) =
      rw (apply_logs-tables kept empty_store)
        (logs_tables-IsBelow b (tables empty_store) kept low nothing) in
    ap (λ db. tables (rollback_from b db)) (apply_logs-append kept orphaned empty_store)
    ∙ rollback_from-tables b (apply_logs orphaned before)
    ∙ ap (below_tables b) (apply_logs-tables orphaned before)
    ∙ logs_tables_high b (tables before) (tables before) orphaned high fresh
        (below_tables-Low b (tables before) is_below)

-- The five tables, but for the senders of the executions.
abbrev pub known_tables : Store → Tables
known_tables db = tables (without_senders db)

-- What the logs make of the five tables depends on nothing else.
pub known_tables_local :
    (xs ys : List DecodedLog) (a b : Store)
    → ButSenders xs ys
    → known_tables a ≡ known_tables b
    → known_tables (apply_logs xs a) ≡ known_tables (apply_logs ys b)
known_tables_local xs ys a b logs e =
    ap tables (without_senders-apply_logs xs a)
    ∙ apply_logs-tables (map unsigned xs) (without_senders a)
    ∙ ap (λ evs. logs_tables evs (known_tables a)) logs
    ∙ ap (logs_tables (map unsigned ys)) e
    ∙ sym (apply_logs-tables (map unsigned ys) (without_senders b))
    ∙ ap tables (sym (without_senders-apply_logs ys b))
