-- ===== src/Keeper/Config.antt =====
-- apps/keeper/src/config.ts: how the keeper reads its settings. The environment is a function;
-- `Number` and `BigInt` are arguments, `none` where the text is no number, and a number in the
-- settings is taken to be a natural one. Lower-casing is that of ASCII, which is exact for keys.
pub mod Keys
use ponshot.Base.{
  ℕ, Bool, true, false, not, ◌&&◌, Option, none, some, List, [], ◌∷◌, ◌++◌, map, ◌==◌,
  if◌then◌else◌, is_nil,
}
use ponshot.Base.Text.{Text, codes, same_text, to_lower, trim, is_empty}

pub data Fault : Type 0 where
  missing not_a_number no_rpc_urls no_deployment development_key : Fault

pub data Loaded {ℓ} (A : Type ℓ) : Type ℓ where
  loaded : A → Loaded A
  refused : Fault → Loaded A

unfoldable pub and_with {ℓ κ} : {A : Type ℓ} {B : Type κ} → Loaded A → (A → Loaded B) → Loaded B
and_with (loaded a) next = next a
and_with (refused f) next = refused f

pub record Addresses : Type 0 where
  pub prediction : Text
  pub oracle : Text
  pub burner : Text

-- A file of deployments, in which the burner may be absent.
pub record Deployment : Type 0 where
  pub prediction : Text
  pub oracle : Text
  pub burner : Option Text

-- The process: its environment, its directory, the files of deployments that can be read, and the
-- conversions of texts and numbers.
pub record Process : Type 0 where
  pub env : Text → Option Text
  pub cwd : Text
  pub deployment : Text → Option Deployment
  pub to_number : Text → Option ℕ
  pub to_bigint : Text → Option ℕ
  pub show : ℕ → Text
  pub default_chain : ℕ
  pub default_rpc_urls : Text

pub record KeeperConfig : Type 0 where
  pub chain_id : ℕ
  pub rpc_urls : List Text
  pub private_key : Text
  pub addresses : Addresses
  pub min_buyback_wei : ℕ
  pub poll_interval_ms : ℕ
  pub confirmations : ℕ
  pub tx_timeout_ms : ℕ
  pub replacement_bump_percent : ℕ
  pub max_attempts : ℕ
  pub min_balance_wei : ℕ
  pub state_path : Text
  pub redis_url : Option Text
  pub lock_key : Text
  pub lock_ttl_ms : ℕ
  pub health_port : ℕ
  pub dry_run : Bool

abbrev pub parsed : Option ℕ → Loaded ℕ
parsed none = refused Fault.not_a_number
parsed (some n) = loaded n

-- A variable that is set and not empty.
abbrev pub filled : Option Text → Option Text
filled none = none
filled (some t) = if is_empty t then none else some t

abbrev pub or_else : Option Text → Text → Text
or_else none t = t
or_else (some v) t = v

abbrev pub required_value : Option Text → Loaded Text
required_value none = refused Fault.missing
required_value (some v) = loaded v

abbrev pub required : Process → Text → Loaded Text
required p name = required_value (filled (p.env name))

abbrev pub number_or : Process → Option Text → ℕ → Loaded ℕ
number_or p none fallback = loaded fallback
number_or p (some v) fallback = parsed (p.to_number v)

abbrev pub num : Process → Text → ℕ → Loaded ℕ
num p name fallback = number_or p (filled (p.env name)) fallback

abbrev pub bigint_or : Process → Option Text → ℕ → Loaded ℕ
bigint_or p none fallback = loaded fallback
bigint_or p (some v) fallback = parsed (p.to_bigint v)

abbrev pub zero_address : Text
zero_address = codes "0x0000000000000000000000000000000000000000"

abbrev pub deployed : Option Deployment → Loaded Addresses
deployed none = refused Fault.no_deployment
deployed (some d) = loaded (record {
  prediction = d.prediction;
  oracle = d.oracle;
  burner = or_else d.burner zero_address;
})

abbrev pub choose_addresses : Process → ℕ → Option Text → Option Text → Loaded Addresses
choose_addresses p chain_id (some prediction) (some oracle) = loaded (record {
  prediction = prediction;
  oracle = oracle;
  burner = or_else (p.env (codes "BURNER_ADDRESS")) zero_address;
})
choose_addresses p chain_id _ _ = deployed (
    p.deployment (
      or_else (p.env (codes "DEPLOYMENTS_PATH"))
        (p.cwd ++ (codes "/../../deployments/" ++ (p.show chain_id ++ codes ".json")))))

unfoldable pub addresses_for : Process → ℕ → Loaded Addresses
addresses_for p chain_id =
    choose_addresses p chain_id (filled (p.env (codes "PREDICTION_ADDRESS")))
      (filled (p.env (codes "ORACLE_ADDRESS")))

abbrev pub well_known_dev_keys : List Text
well_known_dev_keys =
    codes "0xac0974bec39a17e36ba4a6b4d238ff944bacb478cbed5efcae784d7bf4f2ff80"
    ∷ codes "0x59c6995e998f97a5a0044966f0945389dc9e86dae88c7a8412f4603b6b78690d"
    ∷ codes "0x5de4111afa1a4b94908f83103eb1f1706367c2e68ca870fc3fb9a804cdab365a"
    ∷ codes "0x7c852118294e51e653712a81e05800f419141751be58f605c371e15141b007a6"
    ∷ codes "0x47e179ec197488593b187f80a00eb0da91f1b9d0b13f8733639f19c30a34926a"
    ∷ codes "0x8b3a350cf5c34c9194ca85829a2df0ec3153be0318b5e2d3348e872092edffba"
    ∷ codes "0x92db14e403b83dfe3df233f83dfa3a0d7096f21ca9b0d6d6b8d88b2b4ec1564e"
    ∷ codes "0x4bbbf85ce3377467afe5d46f804f221813b2bb87f24d81f60f1fcdbf7cbf4356"
    ∷ codes "0xdbda1821b80551c9d65939329250298aa3472ba22feea921c0cf5d620ea67b97"
    ∷ codes "0x2a871d0798f97d79848a013d4936a73bf4cc922c825d33c1cf7073dff6d409c6"
    ∷ []

abbrev pub local_chain_ids : List ℕ
local_chain_ids = 31337 ∷ 1337 ∷ []

unfoldable pub has_text : Text → List Text → Bool
has_text t [] = false
has_text t (k ∷ ks) = if same_text t k then true else has_text t ks

unfoldable pub has_number : ℕ → List ℕ → Bool
has_number n [] = false
has_number n (k ∷ ks) = if n == k then true else has_number n ks

-- `split(",")`, with the piece that is being read.
abbrev pub split_from : Text → Text → List Text
split_from piece [] = piece ∷ []
split_from piece (c ∷ t) =
    if c == 44 then piece ∷ split_from [] t else split_from (piece ++ c ∷ []) t

abbrev pub keep_filled : List Text → List Text
keep_filled [] = []
keep_filled (t ∷ ts) = if is_empty t then keep_filled ts else t ∷ keep_filled ts

unfoldable pub urls_of : Process → List Text
unfolding trim
urls_of p =
    keep_filled (map trim (split_from [] (or_else (p.env (codes "RPC_URLS")) p.default_rpc_urls)))

unfoldable pub is_unsafe_key : List Text → Text → ℕ → Bool
unfolding has_text has_number to_lower
is_unsafe_key keys key chain_id =
    has_text (to_lower key) keys && not (has_number chain_id local_chain_ids)

abbrev pub is_true : Option Text → Bool
is_true none = false
is_true (some v) = same_text v (codes "true")

-- The numbers and texts that are read last, once the key is accepted.
unfoldable pub read_rest : Process → ℕ → List Text → Addresses → Text → Loaded KeeperConfig
read_rest p chain_id urls addresses key =
    and_with (bigint_or p (p.env (codes "MIN_BUYBACK_WEI")) 1000000000000000) (λ min_buyback.
      and_with (num p (codes "POLL_INTERVAL_MS") 5000) (λ poll.
        and_with (num p (codes "CONFIRMATIONS") 12) (λ confirmations.
          and_with (num p (codes "TX_TIMEOUT_MS") 30000) (λ timeout.
            and_with (num p (codes "REPLACEMENT_BUMP_PERCENT") 25) (λ bump.
              and_with (num p (codes "MAX_ATTEMPTS") 5) (λ attempts.
                and_with (bigint_or p (p.env (codes "MIN_BALANCE_WEI")) 10000000000000000)
                  (λ min_balance. and_with (num p (codes "LOCK_TTL_MS") 30000) (λ ttl.
                    and_with (num p (codes "HEALTH_PORT") 8787) (λ port. loaded (record {
                      chain_id = chain_id;
                      rpc_urls = urls;
                      private_key = key;
                      addresses = addresses;
                      min_buyback_wei = min_buyback;
                      poll_interval_ms = poll;
                      confirmations = confirmations;
                      tx_timeout_ms = timeout;
                      replacement_bump_percent = bump;
                      max_attempts = attempts;
                      min_balance_wei = min_balance;
                      state_path =
                          or_else (p.env (codes "STATE_PATH"))
                            (p.cwd ++ codes "/.keeper-state.json");
                      redis_url = p.env (codes "REDIS_URL");
                      lock_key = or_else (p.env (codes "LOCK_KEY")) (
                          codes "pons-keeper:"
                          ++ (p.show chain_id ++ (codes ":" ++ to_lower addresses.prediction)));
                      lock_ttl_ms = ttl;
                      health_port = port;
                      dry_run = is_true (p.env (codes "DRY_RUN"));
                    }))))))))))

unfoldable pub check_key : Process → ℕ → List Text → Addresses → Text → Loaded KeeperConfig
unfolding is_unsafe_key read_rest
check_key p chain_id urls addresses key =
    if is_unsafe_key well_known_dev_keys key chain_id
    then refused Fault.development_key
    else read_rest p chain_id urls addresses key

unfoldable pub load_config : Process → Loaded KeeperConfig
unfolding urls_of addresses_for check_key
load_config p = and_with (num p (codes "CHAIN_ID") p.default_chain) (λ chain_id.
    if is_nil (urls_of p)
    then refused Fault.no_rpc_urls
    else and_with (addresses_for p chain_id) (λ addresses.
      and_with (required p (codes "KEEPER_PRIVATE_KEY"))
        (λ key. check_key p chain_id (urls_of p) addresses key)))
