-- ===== src/Indexer/Engine/History.antt =====
-- Histories of blocks, the answers that are true of one, and what happens to an indexer over time.
use mathlib.Core.List.{append-nil, append_assoc}
use ponshot.Base.{
  ℕ, zero, suc, ◌+◌, ◌≡◌, refl, sym, ap, ◌∙◌, Option, none, some, List, [], ◌∷◌, ◌++◌, arith, map,
}
use ponshot.Indexer.Store.{Store, DecodedLog}
use ponshot.Indexer.Handlers.{apply_logs, apply_log}
use ponshot.Indexer.Engine.{Cursor, IndexerConfig, Engine, Chain, boot, tick, with_sender}

-- A chain that does not reorganise: the logs of each block, and the hash of the block before it.
pub record History : Type 0 where
  pub logs_of : ℕ → List DecodedLog
  pub hash_before : ℕ → ℕ

-- The logs of so many blocks from one on.
abbrev pub span : History → ℕ → ℕ → List DecodedLog
span h from zero = []
span h from (suc n) = span h from n ++ h.logs_of (from + n)

-- Answers of that chain: whatever is answered is true of it; anything may go unanswered. The logs,
-- with the senders that are answered, match those of the history.
pub record Answers (Match : List DecodedLog → List DecodedLog → Type 0) (h : History) (ch : Chain)
    : Type 0 where
  pub true_logs :
      (from n : ℕ) {logs : List DecodedLog}
      → ch.logs from (from + n) ≡ some logs
      → Match (map (with_sender ch.senders) logs) (span h from (suc n))
  pub true_hash : (n : ℕ) {x : ℕ} → ch.hash_before n ≡ some x → x ≡ h.hash_before n
  pub true_tip : (n : ℕ) {x : ℕ} → ch.tip_hash n ≡ some x → x ≡ h.hash_before (n + 1)

pub apply_logs-append :
    (xs ys : List DecodedLog) (db : Store)
    → apply_logs (xs ++ ys) db ≡ apply_logs ys (apply_logs xs db)
unfolding apply_logs
apply_logs-append [] ys db = refl
apply_logs-append (x ∷ xs) ys db = apply_logs-append xs ys (apply_log x db)

pub span-append :
    (h : History) (from n m : ℕ) → span h from (n + m) ≡ span h from n ++ span h (from + n) m
span-append h from n zero =
    let same : n + 0 ≡ n = omega arith in ap (span h from) same ∙ sym (append-nil (span h from n))
span-append h from n (suc m) =
    let shifted : n + suc m ≡ suc (n + m) = omega arith in
    let place : from + (n + m) ≡ from + n + m = omega arith in
    ap (span h from) shifted
    ∙ rw (place, span-append h from n m)
        (append_assoc (span h from n) (span h (from + n) m) (h.logs_of (from + n + m)))

-- The block that the indexer is at by its database.
abbrev pub position : IndexerConfig → Option Cursor → ℕ
position cfg none = cfg.start_block
position cfg (some c) = c.next_block

-- What happens to the indexer's process: a tick, or an end at any point between two ticks and a
-- start by the database alone, with the anchor's hash that is read then.
pub data Event : Type 0 where
  ticked : Chain → Event
  restarted : Option ℕ → Event

-- A start that is refused leaves everything as it is.
abbrev pub reboot : Engine → Option Engine → Engine
reboot e none = e
reboot e (some e') = e'

abbrev pub happen : IndexerConfig → Event → Engine → Engine
happen cfg (ticked ch) e = (tick cfg ch e).1
happen cfg (restarted anchor) e = reboot e (boot cfg anchor e)

unfoldable pub live : IndexerConfig → List Event → Engine → Engine
live cfg [] e = e
live cfg (v ∷ vs) e = live cfg vs (happen cfg v e)

-- The ticks see no other chain than the one of the history.
abbrev pub Faithful : (List DecodedLog → List DecodedLog → Type 0) → History → Event → Type 0
Faithful Match h (ticked ch) = Answers Match h ch
Faithful Match h (restarted anchor) = Unit
