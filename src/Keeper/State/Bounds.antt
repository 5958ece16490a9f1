-- ===== src/Keeper/State/Bounds.antt =====
-- The limits of the state, and the keys that are marked.
use ponshot.Base.{
  ℕ, zero, suc, ◌+◌, ◌-◌, ◌≤◌, ◌<◌, ◌≡◌, ◌≢◌, refl, inl, inr, true, false, List, [], ◌∷◌, arith,
  Bool-cases, ◌==◌, if◌then◌else◌, length, drop, length-drop, length-slice_last-le,
}
use ponshot.Keeper.State.{
  KeeperState, recent_limit, handled_limit, update, remember, assign, has_key, prune, mark_handled,
  is_handled,
}

pub record IsBounded (s : KeeperState) : Type 0 where
  pub recent_bounded : length s.recent_txs ≤ recent_limit
  pub handled_bounded : length s.handled ≤ handled_limit

-- An update that leaves the handled keys alone keeps the bounds, whatever it appends.
pub update-IsBounded :
    (fn : KeeperState → KeeperState) (s : KeeperState)
    → length (fn s).handled ≤ handled_limit
    → IsBounded (update fn s)
unfolding update
update-IsBounded fn s h = record {
  recent_bounded = length-slice_last-le recent_limit (fn s).recent_txs;
  handled_bounded = h;
}

length-prune-le : (m : List (ℕ × ℕ)) → length (prune m) ≤ handled_limit
unfolding prune
length-prune-le m = ground (arith, length-drop (length m - handled_limit) m)

pub length-assign-le : (k v : ℕ) (m : List (ℕ × ℕ)) → length (assign k v m) ≤ length m + 1
unfolding assign
length-assign-le k v [] = omega arith
length-assign-le k v ((j, w) ∷ m) = ground (arith, length-assign-le k v m)

length-assign_old :
    (k v : ℕ) (m : List (ℕ × ℕ)) → has_key k m ≡ true → length (assign k v m) ≡ length m
unfolding assign has_key
length-assign_old k v [] h = cc
length-assign_old k v ((j, w) ∷ m) h = ground (arith, length-assign_old k v m)

has_key-assign :
    (k j v : ℕ) (m : List (ℕ × ℕ))
    → has_key j (assign k v m) ≡ (if k == j then true else has_key j m)
unfolding assign has_key
has_key-assign k j v [] = refl
has_key-assign k j v ((i, w) ∷ m) = ground (arith, has_key-assign k j v m)

-- A key that is new stands last, so a deletion of fewer than all the others keeps it.
has_key-drop-assign :
    (k v n : ℕ) (m : List (ℕ × ℕ))
    → has_key k m ≡ false
    → n ≤ length m
    → has_key k (drop n (assign k v m)) ≡ true
unfolding assign has_key
has_key-drop-assign k v zero m h le = ground (arith, has_key-assign k k v m)
has_key-drop-assign k v (suc n) [] h le = absurd (omega arith)
has_key-drop-assign k v (suc n) ((j, w) ∷ m) h le = elim (Bool-cases (j == k)) [
  | inl same ↦ absurd (ground arith)
  | inr other ↦ rw other (has_key-drop-assign k v n m (ground arith) (omega arith))
]

has_key-drop : (k n : ℕ) (m : List (ℕ × ℕ)) → has_key k (drop n m) ≡ true → has_key k m ≡ true
unfolding has_key
has_key-drop k zero m h = h
has_key-drop k (suc n) [] h = h
has_key-drop k (suc n) ((j, w) ∷ m) h = ground (arith, has_key-drop k n m h)

has_key-prune-assign :
    (k v : ℕ) (m : List (ℕ × ℕ))
    → length m ≤ handled_limit
    → has_key k (prune (assign k v m)) ≡ true
unfolding prune
has_key-prune-assign k v m le = elim (Bool-cases (has_key k m)) [
  | inl old ↦ ground (arith, length-assign_old k v m old, has_key-assign k k v m)
  | inr new ↦ ground (
    arith,
    length-assign-le k v m,
    has_key-assign k k v m,
    has_key-drop-assign k v (length (assign k v m) - handled_limit) m new,
  )
]

has_key-prune : (k : ℕ) (m : List (ℕ × ℕ)) → has_key k (prune m) ≡ true → has_key k m ≡ true
unfolding prune
has_key-prune k m h = ground (arith, has_key-drop k (length m - handled_limit) m)

-- In a state within its limits, marking a key keeps the limits and makes the key handled.
pub mark_handled_lem :
    (key now : ℕ) (s : KeeperState)
    → IsBounded s
    → IsBounded (mark_handled key now s) × (is_handled key (mark_handled key now s) ≡ true)
unfolding mark_handled is_handled
mark_handled_lem key now s b = (
  update-IsBounded (remember key now) s (length-prune-le (assign key now s.handled)),
  has_key-prune-assign key now s.handled b.handled_bounded,
)

-- A key that is handled after another one was marked was handled before.
pub mark_handled_adds_one :
    (key now j : ℕ) (s : KeeperState)
    → j ≢ key
    → is_handled j (mark_handled key now s) ≡ true
    → is_handled j s ≡ true
unfolding mark_handled is_handled
mark_handled_adds_one key now j s ne h =
    ground (arith, has_key-prune j (assign key now s.handled) h, has_key-assign key j now s.handled)

-- While fewer than 500 keys are stored, marking a key forgets none: the handled keys are those
-- that were, and the new one.
pub is_handled-mark_handled :
    (key now j : ℕ) (s : KeeperState)
    → length s.handled < handled_limit
    → is_handled j (mark_handled key now s) ≡ (if key == j then true else is_handled j s)
unfolding mark_handled is_handled prune
is_handled-mark_handled key now j s few =
    ground (arith, length-assign-le key now s.handled, has_key-assign key j now s.handled)
