-- ===== src/Examples/Service.antt =====
-- A health report, and requests to the proxy.
use ponshot.Base.{◌≡◌, ◌≤◌, ◌<◌, ◌*◌, ◌+◌, refl, true, some, [], ◌∷◌, All}
use ponshot.Base.Text.{codes}
use ponshot.Keeper.State.{empty_state, KeeperState}
use ponshot.Keeper.Tx.{send, simulate}
use ponshot.Keeper.Loop.{Keeper}
use ponshot.Keeper.Health.{runway, is_ready}
use ponshot.Keeper.Health.Runway.{runway_lem}
use ponshot.Keeper.Health.Floor.{is_ready-send}
use ponshot.Web.Proxy.{Body, post, allowed, calls_of, blocked, permits, has}
use ponshot.Web.Proxy.ReadOnly.{IsListed, post-Listed}
use ponshot.Examples.Keeper.{opts, pre, net, fresh, args}
use ponshot.Examples.Loop.{keeper}

abbrev spent : KeeperState
spent = record empty_state { max_tx_cost_wei = 300 }

runway_test :
    let fuel = runway spent 1000 in
    (0 < fuel.reserve_wei)
    × (300 ≤ fuel.reserve_wei)
    × (fuel.txs_remaining * fuel.reserve_wei ≤ 1000)
    × (1000 < (fuel.txs_remaining + 1) * fuel.reserve_wei)
runway_test = runway_lem spent 1000

abbrev live : Keeper
live = record keeper { running = true; last_tick_at = some 900; operator_balance_wei = 500 }

live_ready : is_ready 1000 live opts.min_balance_wei true ≡ true
unfolding is_ready
live_ready = refl

is_ready-send_test : send opts args pre net fresh ≡ simulate opts args pre net fresh pre.simulation
is_ready-send_test = is_ready-send 1000 live true opts args pre net fresh live_ready refl

abbrev mixed : Body
mixed = Body.batch (
    record { id = some 1; method = some (codes "eth_call") }
    ∷ record { id = some 2; method = some (codes "eth_sendRawTransaction") }
    ∷ [])

post-Listed_example : All (λ b. All (IsListed allowed) (calls_of b)) (post (some mixed) (some 5)).1
post-Listed_example = post-Listed (some mixed) (some 5)

mixed_refused : (post (some mixed) (some 5)).1 ≡ []
unfolding post blocked permits has
mixed_refused = refl
