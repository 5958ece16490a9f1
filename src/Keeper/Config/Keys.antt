-- ===== src/Keeper/Config/Keys.antt =====
-- Which keys the keeper starts with.
use ponshot.Base.{ℕ, ◌≡◌, ◌⊎◌, List, true, false, arith, Bool-cases, inl, inr, is_nil, refl}
use ponshot.Base.Text.{Text, to_lower}
use ponshot.Keeper.Config.{
  Process, KeeperConfig, Loaded, loaded, refused, load_config, Addresses, check_key, is_unsafe_key,
  read_rest, well_known_dev_keys, has_text, has_number, local_chain_ids, and_with, urls_of,
}

-- What holds of the settings, if they are loaded.
abbrev pub IfLoaded {ℓ} : {A : Type ℓ} → (A → Type 0) → Loaded A → Type 0
IfLoaded P (loaded a) = P a
IfLoaded P (refused f) = Unit

and_with-IfLoaded {ℓ κ} :
    {A : Type ℓ} {B : Type κ} (P : B → Type 0) (r : Loaded A) (next : A → Loaded B)
    → ((a : A) → IfLoaded P (next a))
    → IfLoaded P (and_with r next)
unfolding and_with
and_with-IfLoaded P (loaded a) next h = h a
and_with-IfLoaded P (refused f) next h = tt

-- The key is none of the public development keys, or the chain is a local one.
abbrev pub KeyIsSafe : KeeperConfig → Type 0
KeyIsSafe cfg =
    (has_text (to_lower cfg.private_key) well_known_dev_keys ≡ false)
    ⊎ (cfg.chain_id ≡ 31337)
    ⊎ (cfg.chain_id ≡ 1337)

has_number-local : (n : ℕ) → has_number n local_chain_ids ≡ true → (n ≡ 31337) ⊎ (n ≡ 1337)
unfolding has_number
has_number-local n h = ground arith

is_unsafe_key_lem :
    (keys : List Text) (key : Text) (chain_id : ℕ)
    → is_unsafe_key keys key chain_id ≡ false
    → (has_text (to_lower key) keys ≡ false) ⊎ (chain_id ≡ 31337) ⊎ (chain_id ≡ 1337)
unfolding is_unsafe_key
is_unsafe_key_lem keys key chain_id h = elim (Bool-cases (has_text (to_lower key) keys)) [
  | inr other ↦ inl other
  | inl known ↦ inr (has_number-local chain_id (ground arith))
]

read_rest-IfLoaded :
    (p : Process) (chain_id : ℕ) (urls : List Text) (addresses : Addresses) (key : Text)
    (P : KeeperConfig → Type 0)
    → ((cfg : KeeperConfig) → cfg.private_key ≡ key → cfg.chain_id ≡ chain_id → P cfg)
    → IfLoaded P (read_rest p chain_id urls addresses key)
unfolding read_rest
read_rest-IfLoaded p chain_id urls addresses key P h = and_with-IfLoaded P _ _ (λ a.
    and_with-IfLoaded P _ _ (λ b. and_with-IfLoaded P _ _ (λ c. and_with-IfLoaded P _ _ (λ d.
      and_with-IfLoaded P _ _ (λ e. and_with-IfLoaded P _ _ (λ f.
        and_with-IfLoaded P _ _
          (λ g. and_with-IfLoaded P _ _ (λ i. and_with-IfLoaded P _ _ (λ j. h _ refl refl)))))))))

check_key-IfLoaded :
    (p : Process) (chain_id : ℕ) (urls : List Text) (addresses : Addresses) (key : Text)
    → IfLoaded KeyIsSafe (check_key p chain_id urls addresses key)
unfolding check_key
check_key-IfLoaded p chain_id urls addresses key =
    elim (Bool-cases (is_unsafe_key well_known_dev_keys key chain_id)) [
      | inl unsafe ↦ rw (check_key, unsafe) tt
      | inr safe ↦
          rw (check_key, safe)
            (read_rest-IfLoaded p chain_id urls addresses key KeyIsSafe
              (λ cfg k c. rw (k, c) (is_unsafe_key_lem well_known_dev_keys key chain_id safe)))
    ]

-- Whatever the environment holds, a keeper whose settings load does not run on a well-known
-- development key, in any case of its letters, except on a local chain.
pub load_config-IfLoaded : (p : Process) → IfLoaded KeyIsSafe (load_config p)
unfolding load_config
load_config-IfLoaded p = and_with-IfLoaded KeyIsSafe _ _ (λ chain_id.
    elim (Bool-cases (is_nil (urls_of p))) [
      | inl bare ↦ rw bare tt
      | inr some_url ↦ rw some_url (
          and_with-IfLoaded KeyIsSafe _ _ (λ addresses.
            and_with-IfLoaded KeyIsSafe _ _
              (λ key. check_key-IfLoaded p chain_id (urls_of p) addresses key)))
    ])
