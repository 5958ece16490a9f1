-- ===== src/Indexer/Engine/Recovery/Logs.antt =====
-- What the logs of low and of high blocks do to the five tables.

use ponshot.Base.Every.{All-map}
use ponshot.Base.{
  ℕ, ◌<◌, ◌≡◌, refl, inl, inr, All, Bool-cases, ltb, false, Bool, ◌≤◌, List, ◌∷◌, ◌⊎◌, ◌∙◌, [],
}
use ponshot.Indexer.Rows.{
  keep_old, same_event, same_bet, same_claim, same_execution, same_burn_event, merge_bet,
  merge_claim, event_row,
}
use ponshot.Indexer.Store.{Store, DecodedLog, Body}
use ponshot.Indexer.Handlers.{rollback_from}
use ponshot.Indexer.Handlers.Rollback.{below, delete-below}
use ponshot.Indexer.Handlers.Reorg.{
  Tables, tables, bets_of, claims_of, executions_of, burn_events_of, log_tables, logs_tables,
}
use ponshot.Indexer.Handlers.Reorg.High.{below-Low, Spares, put_rows_high, put_rows-Low}

-- The rows of each of the tables that stand below the block.
abbrev pub below_tables : ℕ → Tables → Tables
below_tables b t = record {
  events = below (λ r. r.block_number) b t.events;
  bets = below (λ r. r.block_number) b t.bets;
  claims = below (λ r. r.block_number) b t.claims;
  executions = below (λ r. r.block_number) b t.executions;
  burn_events = below (λ r. r.block_number) b t.burn_events;
}

pub rollback_from-tables :
    (b : ℕ) (db : Store) → tables (rollback_from b db) ≡ below_tables b (tables db)
unfolding rollback_from
rollback_from-tables b db =
    rw
      (
        delete-below (λ r. r.block_number) b db.events,
        delete-below (λ r. r.block_number) b db.bets,
        delete-below (λ r. r.block_number) b db.claims,
        delete-below (λ r. r.block_number) b db.executions,
        delete-below (λ r. r.block_number) b db.burn_events,
      )
      refl

-- All five tables stand below the block.
pub record IsBelow (b : ℕ) (t : Tables) : Type 0 where
  pub events : All (λ r. r.block_number < b) t.events
  pub bets : All (λ r. r.block_number < b) t.bets
  pub claims : All (λ r. r.block_number < b) t.claims
  pub executions : All (λ r. r.block_number < b) t.executions
  pub burn_events : All (λ r. r.block_number < b) t.burn_events

pub below_tables-Low : (b : ℕ) (t : Tables) → IsBelow b t → below_tables b t ≡ t
below_tables-Low b t l =
    rw
      (
        below-Low (λ r. r.block_number) b t.events l.events,
        below-Low (λ r. r.block_number) b t.bets l.bets,
        below-Low (λ r. r.block_number) b t.claims l.claims,
        below-Low (λ r. r.block_number) b t.executions l.executions,
        below-Low (λ r. r.block_number) b t.burn_events l.burn_events,
      )
      refl

-- The rows of a log carry its block.
module _ (P : ℕ → Type 0) (ev : DecodedLog) (p : P ev.block_number) where
  bets_at : (body : Body) → All (λ r. P r.block_number) (bets_of ev body)
  bets_at (Body.bet position account epoch amount) = (p, tt)
  bets_at _ = tt

  claims_at : (body : Body) → All (λ r. P r.block_number) (claims_of ev body)
  claims_at (Body.collected kind account epoch amount) = (p, tt)
  claims_at _ = tt

  executions_at : (body : Body) → All (λ r. P r.block_number) (executions_of ev body)
  executions_at (Body.round_locked epoch price tick instant executed_at) = (p, tt)
  executions_at (Body.round_settled epoch price tick code base reward fee executed_at) = (p, tt)
  executions_at (Body.round_cancelled epoch reason) = (p, tt)
  executions_at _ = tt

  burn_events_at : (body : Body) → All (λ r. P r.block_number) (burn_events_of ev body)
  burn_events_at (Body.round_settled epoch price tick code base reward fee executed_at) =
      elim (Bool-cases (ltb 0 fee)) [
        | inl some_fee ↦ rw some_fee (p, tt)
        | inr no_fee ↦ rw no_fee tt
      ]
  burn_events_at (Body.swept name to amount) = (p, tt)
  burn_events_at (Body.config name payload) = (p, tt)
  burn_events_at _ = tt

-- A log that neither repeats the wallet's bet on a round nor its claim of it, as the tables have
-- them; the contract emits no such log after the other.
pub record IsFresh (t : Tables) (ev : DecodedLog) : Type 0 where
  pub bets : All (λ new. All (λ r. same_bet r new ≡ false) t.bets) (bets_of ev ev.body)
  pub claims : All (λ new. All (λ r. same_claim r new ≡ false) t.claims) (claims_of ev ev.body)

-- `ON CONFLICT DO NOTHING` leaves every row as it is.
Spares-keep_old :
    {R : Type 0} (block : R → ℕ) (same : R → R → Bool) (b : ℕ) (new base : List R)
    → All (λ n. All (Spares block same keep_old b (λ r n'. inl refl) n) base) new
Spares-keep_old block same b [] base = tt
Spares-keep_old block same b (n ∷ ns) base = (each base, Spares-keep_old block same b ns base)
  where
    each : (rows : List _) → All (Spares block same keep_old b (λ r n'. inl refl) n) rows
    each [] = tt
    each (r ∷ rs) = (inr refl, each rs)

-- Rows that conflict with none.
fresh_spared :
    {R : Type 0} (block : R → ℕ) (same : R → R → Bool) (merge : R → R → R) (b : ℕ)
    (which : (r new : R) → (block (merge r new) ≡ block r) ⊎ (block (merge r new) ≡ block new))
    (new base : List R)
    → All (λ n. All (λ r. same r n ≡ false) base) new
    → All (λ n. All (Spares block same merge b which n) base) new
fresh_spared block same merge b which new base f =
    All-map (λ n. All (λ r. same r n ≡ false) base)
      (λ n. All (Spares block same merge b which n) base) new
      (λ n h.
        All-map (λ r. same r n ≡ false) (Spares block same merge b which n) base
          (λ r miss. inl miss) h)
      f

log_tables_high :
    (b : ℕ) (t : Tables) (ev : DecodedLog)
    → b ≤ ev.block_number
    → IsFresh (below_tables b t) ev
    → below_tables b (log_tables ev t) ≡ below_tables b t
log_tables_high b t ev high fresh =
    let high_row = λ (n : ℕ). b ≤ n in
    let base = below_tables b t in
    rw
      (
        put_rows_high (λ r. r.block_number) same_event keep_old b (λ r new. inl refl)
            (event_row ev ∷ []) t.events base.events (high, tt)
            (Spares-keep_old (λ r. r.block_number) same_event b (event_row ev ∷ []) base.events)
            refl,
        put_rows_high (λ r. r.block_number) same_bet merge_bet b (λ r new. inr refl)
            (bets_of ev ev.body) t.bets base.bets (bets_at high_row ev high ev.body)
            (fresh_spared (λ r. r.block_number) same_bet merge_bet b (λ r new. inr refl) _ base.bets
              fresh.bets)
            refl,
        put_rows_high (λ r. r.block_number) same_claim merge_claim b (λ r new. inr refl)
            (claims_of ev ev.body) t.claims base.claims (claims_at high_row ev high ev.body)
            (fresh_spared (λ r. r.block_number) same_claim merge_claim b (λ r new. inr refl) _
              base.claims fresh.claims)
            refl,
        put_rows_high (λ r. r.block_number) same_execution keep_old b (λ r new. inl refl)
            (executions_of ev ev.body) t.executions base.executions
            (executions_at high_row ev high ev.body)
            (Spares-keep_old (λ r. r.block_number) same_execution b (executions_of ev ev.body)
              base.executions)
            refl,
        put_rows_high (λ r. r.block_number) same_burn_event keep_old b (λ r new. inl refl)
            (burn_events_of ev ev.body) t.burn_events base.burn_events
            (burn_events_at high_row ev high ev.body)
            (Spares-keep_old (λ r. r.block_number) same_burn_event b (burn_events_of ev ev.body)
              base.burn_events)
            refl,
      )
      refl

pub logs_tables_high :
    (b : ℕ) (base t : Tables) (evs : List DecodedLog)
    → All (λ ev. b ≤ ev.block_number) evs
    → All (IsFresh base) evs
    → below_tables b t ≡ base
    → below_tables b (logs_tables evs t) ≡ base
logs_tables_high b base t [] high fresh e = e
logs_tables_high b base t (ev ∷ evs) high fresh e =
    logs_tables_high b base (log_tables ev t) evs high.1 fresh.1
      (log_tables_high b t ev high.0 (rw e fresh.0) ∙ e)

pub logs_tables-IsBelow :
    (b : ℕ) (t : Tables) (evs : List DecodedLog)
    → All (λ ev. ev.block_number < b) evs
    → IsBelow b t
    → IsBelow b (logs_tables evs t)
logs_tables-IsBelow b t [] low h = h
logs_tables-IsBelow b t (ev ∷ evs) low h =
    let low_row = λ (n : ℕ). n < b in
    logs_tables-IsBelow b (log_tables ev t) evs low.1 (record {
      events =
          put_rows-Low (λ r. r.block_number) same_event keep_old b (λ r new. inl refl)
            (event_row ev ∷ []) t.events (low.0, tt) h.events;
      bets =
          put_rows-Low (λ r. r.block_number) same_bet merge_bet b (λ r new. inr refl)
            (bets_of ev ev.body) t.bets (bets_at low_row ev low.0 ev.body) h.bets;
      claims =
          put_rows-Low (λ r. r.block_number) same_claim merge_claim b (λ r new. inr refl)
            (claims_of ev ev.body) t.claims (claims_at low_row ev low.0 ev.body) h.claims;
      executions =
          put_rows-Low (λ r. r.block_number) same_execution keep_old b (λ r new. inl refl)
            (executions_of ev ev.body) t.executions (executions_at low_row ev low.0 ev.body)
            h.executions;
      burn_events =
          put_rows-Low (λ r. r.block_number) same_burn_event keep_old b (λ r new. inl refl)
            (burn_events_of ev ev.body) t.burn_events (burn_events_at low_row ev low.0 ev.body)
            h.burn_events;
    })
