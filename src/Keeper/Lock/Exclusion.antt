-- ===== src/Keeper/Lock/Exclusion.antt =====
-- Keepers that share a lock, as a sequence of their calls in any order.
use ponshot.Keeper.Lock.{Redis, acquire, renew, release, holds}
use ponshot.Base.{
  some_inj, ℕ, Bool, true, false, ◌==◌, ◌≡◌, none, some, List, [], ◌∷◌, if◌then◌else◌, Option-cases,
  ◌≢◌, inl, inr, arith, Bool-cases, sym, ==_iff, ◌∙◌, ap,
}

-- What Redis documents of its commands, and of a key that expires.
pub record IsRedis {ℓ} {S : Type ℓ} (redis : Redis S) (lapse : S → S) : Type ℓ where
  pub set_free :
      (token : ℕ) (s : S)
      → redis.get s ≡ none
      → ((redis.set_nx token s).0 ≡ true) × (redis.get (redis.set_nx token s).1 ≡ some token)
  pub set_taken :
      (token t : ℕ) (s : S)
      → redis.get s ≡ some t
      → ((redis.set_nx token s).0 ≡ false) × (redis.get (redis.set_nx token s).1 ≡ some t)
  pub pexpire_keeps : (s : S) → redis.get (redis.pexpire s).1 ≡ redis.get s
  pub del_frees : (s : S) → redis.get (redis.del s) ≡ none
  pub lapse_frees : (s : S) → redis.get (lapse s) ≡ none

-- What happens while Redis is available: the keeper with a token ticks, or shuts down, or the key
-- expires.
pub data Call : Type 0 where
  ticks shuts_down : ℕ → Call
  lapses : Call

-- The state of Redis, the field `holdsLock` of each keeper, and the keepers for which it has been true
-- since their last tick, with no expiry of the key and no shutdown in between.
pub record World {ℓ} (S : Type ℓ) : Type ℓ where
  pub store : S
  pub holds_lock : ℕ → Bool
  pub sure : ℕ → Bool

abbrev told : ℕ → Bool → (ℕ → Bool) → ℕ → Bool
told token answer before t = if t == token then answer else before t

module _ {ℓ} {S : Type ℓ} (redis : Redis S) (lapse : S → S) where
  -- `this.holdsLock ? await this.lock.renew() : await this.lock.acquire()`
  abbrev pub ask : ℕ → World S → Bool × S
  ask token w =
      if w.holds_lock token
      then renew redis true token w.store
      else acquire redis true token w.store

  unfoldable pub call : Call → World S → World S
  unfolding acquire renew release
  call (Call.ticks token) w =
      let (answer, s) = ask token w in
      record {
        store = s;
        holds_lock = told token answer w.holds_lock;
        sure = told token answer w.sure;
      }
  call (Call.shuts_down token) w = record {
    store = release redis true token w.store;
    holds_lock = w.holds_lock;
    sure = told token false w.sure;
  }
  call Call.lapses w = record {
    store = lapse w.store;
    holds_lock = w.holds_lock;
    sure = λ t. false;
  }

  unfoldable pub calls : List Call → World S → World S
  unfolding call
  calls [] w = w
  calls (c ∷ cs) w = calls cs (call c w)

  -- The token of a keeper that is sure is the value of the key.
  abbrev pub IsKept : World S → Type 0
  IsKept w = (t : ℕ) → w.sure t ≡ true → redis.get w.store ≡ some t

  module _ (h : IsRedis redis lapse) where
    acquire-true :
        (token : ℕ) (s : S)
        → (acquire redis true token s).0 ≡ true
        → redis.get (acquire redis true token s).1 ≡ some token
    unfolding acquire
    acquire-true token s e = elim (Option-cases (redis.get s)) [
      | inl free ↦ (h.set_free token s free).1
      | inr (t, taken) ↦ grind (arith, (h.set_taken token t s taken).0, e)
    ]

    holds-some : (token : ℕ) (s : S) → holds redis token s ≡ true → redis.get s ≡ some token
    holds-some token s e = elim (Option-cases (redis.get s)) [
      | inl free ↦ grind (arith, rw (holds, free) at e)
      | inr (t, taken) ↦
          let same : t ≡ token = (==_iff t token).0 (rw (holds, taken) at e) in taken ∙ ap some same
    ]

    renew-true :
        (token : ℕ) (s : S)
        → (renew redis true token s).0 ≡ true
        → redis.get (renew redis true token s).1 ≡ some token
    unfolding renew
    renew-true token s e = elim (Bool-cases (holds redis token s)) [
      | inl hit ↦ rw (renew, hit) (h.pexpire_keeps s ∙ holds-some token s hit)
      | inr miss ↦ grind (arith, rw (renew, miss) at e)
    ]

    -- A call of another keeper leaves the key's value if there is one.
    acquire_other :
        (token t : ℕ) (s : S)
        → redis.get s ≡ some t
        → redis.get (acquire redis true token s).1 ≡ some t
    unfolding acquire
    acquire_other token t s e = (h.set_taken token t s e).1

    renew_other :
        (token t : ℕ) (s : S)
        → redis.get s ≡ some t
        → redis.get (renew redis true token s).1 ≡ some t
    unfolding renew
    renew_other token t s e = elim (Bool-cases (holds redis token s)) [
      | inl hit ↦ rw (renew, hit) (h.pexpire_keeps s ∙ e)
      | inr miss ↦ rw (renew, miss) e
    ]

    release_other :
        (token t : ℕ) (s : S)
        → t ≢ token
        → redis.get s ≡ some t
        → redis.get (release redis true token s) ≡ some t
    unfolding release
    release_other token t s ne e = elim (Bool-cases (holds redis token s)) [
      | inl hit ↦ absurd (ne (some_inj (sym e ∙ holds-some token s hit)))
      | inr miss ↦ rw (release, miss) e
    ]

    ask-true :
        (token : ℕ) (w : World S) → (ask token w).0 ≡ true → redis.get (ask token w).1 ≡ some token
    ask-true token w e = elim (Bool-cases (w.holds_lock token)) [
      | inl held ↦ rw (ask, held) (renew-true token w.store (rw (ask, held) at e))
      | inr free ↦ rw (ask, free) (acquire-true token w.store (rw (ask, free) at e))
    ]

    ask_other :
        (token t : ℕ) (w : World S)
        → redis.get w.store ≡ some t
        → redis.get (ask token w).1 ≡ some t
    ask_other token t w e = elim (Bool-cases (w.holds_lock token)) [
      | inl held ↦ rw (ask, held) (renew_other token t w.store e)
      | inr free ↦ rw (ask, free) (acquire_other token t w.store e)
    ]

    call-IsKept : (c : Call) (w : World S) → IsKept w → IsKept (call c w)
    unfolding call
    call-IsKept (Call.ticks token) w k t e = elim (Bool-cases (t == token)) [
      | inl mine ↦
          let same : t ≡ token = (==_iff t token).0 mine in
          ask-true token w (rw (call, told, mine) at e) ∙ ap some (sym same)
      | inr other ↦ ask_other token t w (k t (rw (call, told, other) at e))
    ]
    call-IsKept (Call.shuts_down token) w k t e = elim (Bool-cases (t == token)) [
      | inl mine ↦ grind (arith, rw (call, told, mine) at e)
      | inr other ↦
          release_other token t w.store (ground (arith, other)) (k t (rw (call, told, other) at e))
    ]
    call-IsKept Call.lapses w k t e = grind (arith, e)

    calls-IsKept : (cs : List Call) (w : World S) → IsKept w → IsKept (calls cs w)
    unfolding calls
    calls-IsKept [] w k = k
    calls-IsKept (c ∷ cs) w k = calls-IsKept cs (call c w) (call-IsKept c w k)

-- If Redis behaves as it documents and is available, then after any sequence of ticks of any keepers,
-- shutdowns and expiries of the key, from a world in which the token of each keeper that is sure is
-- the value of the key, at most one keeper has been told by its last tick that it holds the lock, with
-- no expiry and no shutdown of its own since.
pub calls_exclusive {ℓ} :
    {S : Type ℓ} (redis : Redis S) (lapse : S → S) (cs : List Call) (w : World S) (a b : ℕ)
    → IsRedis redis lapse
    → IsKept redis lapse w
    → (calls redis lapse cs w).sure a ≡ true
    → (calls redis lapse cs w).sure b ≡ true
    → a ≡ b
calls_exclusive redis lapse cs w a b h k ea eb =
    let kept = calls-IsKept redis lapse h cs w k in some_inj (sym (kept a ea) ∙ kept b eb)
