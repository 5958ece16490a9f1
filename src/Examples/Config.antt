-- ===== src/Examples/Config.antt =====
-- A keeper that is given a public key.
use ponshot.Base.{◌≡◌, refl, some, none, Option, if◌then◌else◌}
use ponshot.Base.Text.{Text, codes, same_text, trim, trim_start, to_lower}
use ponshot.Keeper.Config.{
  and_with, Process, load_config, refused, Fault, urls_of, addresses_for, check_key, is_unsafe_key,
  has_text, has_number,
}
use ponshot.Keeper.Config.Keys.{IfLoaded, KeyIsSafe, load_config-IfLoaded}

abbrev env : Text → Option Text
env name =
    if same_text name (codes "KEEPER_PRIVATE_KEY")
    then some (codes "0xAC0974bec39a17e36ba4a6b4d238ff944bacb478cbed5efcae784d7bf4f2ff80")
    else if same_text name (codes "PREDICTION_ADDRESS")
    then some (codes "0x01")
    else if same_text name (codes "ORACLE_ADDRESS")
    then some (codes "0x02")
    else none

abbrev process : Process
process = record {
  env = env;
  cwd = codes "/app";
  deployment = λ name. none;
  to_number = λ t. none;
  to_bigint = λ t. none;
  show = λ n. codes "4663";
  default_chain = 4663;
  default_rpc_urls = codes "https://a, https://b";
}

load_config-IfLoaded_example : IfLoaded KeyIsSafe (load_config process)
load_config-IfLoaded_example = load_config-IfLoaded process

public_key_refused : load_config process ≡ refused Fault.development_key
unfolding and_with load_config urls_of addresses_for check_key is_unsafe_key has_text has_number
    trim trim_start to_lower
public_key_refused = refl
