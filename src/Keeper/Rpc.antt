-- ===== src/Keeper/Rpc.antt =====
-- apps/keeper/src/rpc.ts: the health of the endpoints in `RpcPool`. The transport is viem's, and the
-- reply of an endpoint to a probe is an argument. A `Map` is the list of its values in the order in
-- which their keys were first set.
pub mod Probed
use ponshot.Base.{ℕ, Bool, true, false, Option, none, some, List, [], ◌∷◌, any, ◌==◌}
use ponshot.Base.Text.{Text}
use ponshot.Indexer.Table.{upsert}

pub record RpcHealth : Type 0 where
  pub url : ℕ
  pub ok : Bool
  pub last_error : Option Text
  pub last_checked_at : Option ℕ
  pub latency_ms : Option ℕ

-- What comes of one probe, at a time: an answer after some milliseconds, or an error.
pub data ProbeReply : Type 0 where
  answered : (at latency : ℕ) → ProbeReply
  refused : (at : ℕ) → (message : Text) → ProbeReply

abbrev pub same_url : RpcHealth → RpcHealth → Bool
same_url a b = a.url == b.url

abbrev pub replace_health : RpcHealth → RpcHealth → RpcHealth
replace_health old new = new

-- `this.health.set`
unfoldable pub set_health : RpcHealth → List RpcHealth → List RpcHealth
unfolding upsert
set_health h health = upsert same_url replace_health h health

abbrev pub unprobed : ℕ → RpcHealth
unprobed url = record {
  url = url;
  ok = true;
  last_error = none;
  last_checked_at = none;
  latency_ms = none;
}

-- The loop of the constructor, over the health so far.
unfoldable pub add_urls : List ℕ → List RpcHealth → List RpcHealth
unfolding set_health
add_urls [] health = health
add_urls (url ∷ urls) health = add_urls urls (set_health (unprobed url) health)

unfoldable pub rpc_pool : List ℕ → List RpcHealth
unfolding add_urls
rpc_pool urls = add_urls urls []

abbrev pub health_of : ℕ → ProbeReply → RpcHealth
health_of url (answered at latency) = record {
  url = url;
  ok = true;
  last_error = none;
  last_checked_at = some at;
  latency_ms = some latency;
}
health_of url (refused at message) = record {
  url = url;
  ok = false;
  last_error = some message;
  last_checked_at = some at;
  latency_ms = none;
}

-- `probe`: the endpoints in the order in which their probes end, with what came of each.
unfoldable pub probe : List (ℕ × ProbeReply) → List RpcHealth → List RpcHealth
unfolding set_health
probe [] health = health
probe ((url, reply) ∷ rest) health = probe rest (set_health (health_of url reply) health)

unfoldable pub any_healthy : List RpcHealth → Bool
any_healthy health = any (λ h. h.ok) health
