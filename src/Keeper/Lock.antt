-- ===== src/Keeper/Lock.antt =====
-- apps/keeper/src/lock.ts: `RedisLock` and `NoopLock`. Redis is a parameter: its commands on the key
-- of the lock, over a state of its own. A command that throws is one that is not available.
pub mod Exclusion
use ponshot.Base.{ℕ, Bool, true, false, ◌==◌, Option, none, some, if◌then◌else◌}

-- `GET`, `SET … PX … NX`, `PEXPIRE` and `DEL` on the key; the answers of the second and the third say
-- whether the key was set, and whether it was there.
pub record Redis {ℓ} (S : Type ℓ) : Type ℓ where
  pub get : S → Option ℕ
  pub set_nx : ℕ → S → Bool × S
  pub pexpire : S → Bool × S
  pub del : S → S

module _ {ℓ} {S : Type ℓ} (redis : Redis S) where
  abbrev pub holds : ℕ → S → Bool
  holds token s = elim (redis.get s) [ none ↦ false | some t ↦ t == token ]

  -- `acquire` of RedisLock, which fails open.
  unfoldable pub acquire : (available : Bool) → ℕ → S → Bool × S
  acquire false token s = (true, s)
  acquire true token s = redis.set_nx token s

  -- The script of `renew`.
  unfoldable pub renew : (available : Bool) → ℕ → S → Bool × S
  renew false token s = (true, s)
  renew true token s = if holds token s then redis.pexpire s else (false, s)

  -- The script of `release`.
  unfoldable pub release : (available : Bool) → ℕ → S → S
  release false token s = s
  release true token s = if holds token s then redis.del s else s

-- NoopLock
abbrev pub noop_acquire : Bool
noop_acquire = true

abbrev pub noop_renew : Bool
noop_renew = true

-- `createLock`
pub data Lock : Type 0 where
  noop redis_lock : Lock

abbrev pub create_lock : (has_url : Bool) → Lock
create_lock has_url = if has_url then Lock.redis_lock else Lock.noop
