-- ===== src/Indexer/Engine/Instance.antt =====
-- Which market and which chain the rows are of.
use ponshot.Base.{ℕ, ◌≡◌, Option, none, some, true}
use ponshot.Indexer.Engine.{Cursor, Engine, is_other_chain}

-- The stored cursor belongs to another instance of the chain.
abbrev pub OtherChain : Option ℕ → Option Cursor → Type 0
OtherChain anchor none = ⊥
OtherChain anchor (some c) = is_other_chain anchor c.genesis_hash ≡ true
