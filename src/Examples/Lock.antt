-- ===== src/Examples/Lock.antt =====
-- Two keepers that share a lock.
use ponshot.Keeper.Lock.{Redis}
use ponshot.Keeper.Lock.Exclusion.{IsRedis, IsKept, Call, World, calls, calls_exclusive}
use ponshot.Base.{ℕ, ◌≡◌, refl, Bool, true, false, Option, none, some, List, [], ◌∷◌, arith}

-- Redis as the value of the key.
abbrev set_if_free : ℕ → Option ℕ → Bool × Option ℕ
set_if_free token none = (true, some token)
set_if_free token (some t) = (false, some t)

abbrev has_value : Option ℕ → Bool
has_value none = false
has_value (some t) = true

abbrev one_key : Redis (Option ℕ)
one_key = record {
  get = λ s. s;
  set_nx = set_if_free;
  pexpire = λ s. (has_value s, s);
  del = λ s. none;
}

abbrev expire : Option ℕ → Option ℕ
expire s = none

one_key-IsRedis : IsRedis one_key expire
one_key-IsRedis = record {
  set_free = λ token s e. rw e (refl, refl);
  set_taken = λ token t s e. rw e (refl, refl);
  pexpire_keeps = λ s. refl;
  del_frees = λ s. refl;
  lapse_frees = λ s. refl;
}

abbrev fresh : World (Option ℕ)
fresh = record { store = none; holds_lock = λ t. false; sure = λ t. false }

fresh-IsKept : IsKept one_key expire fresh
fresh-IsKept t e = grind (arith, e)

-- Keeper 1 takes the lock, its key expires, and keeper 2 takes it before keeper 1 ticks again.
abbrev turns : List Call
turns = Call.ticks 1 ∷ Call.ticks 2 ∷ Call.lapses ∷ Call.ticks 2 ∷ Call.ticks 1 ∷ []

abbrev second : ℕ
second = 2

calls_exclusive_example : second ≡ second
unfolding calls
calls_exclusive_example =
    calls_exclusive one_key expire turns fresh second second one_key-IsRedis fresh-IsKept refl refl

turns_test : (calls one_key expire turns fresh).sure 1 ≡ false
unfolding calls
turns_test = refl
