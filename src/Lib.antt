-- ===== src/Lib.antt =====
-- PONSHOT: rounds in which one bets on the price of PONS against ETH. A contract holds the stakes
-- and settles the rounds; around it stand the TypeScript services that this development models.
--
--   * packages/sdk is the arithmetic that the services and the interface share: what a position is
--     worth, how a round resolved, how a burn allocation is split (Sdk). Sdk.Format is how
--     src/price.ts prints amounts, over the decimal texts of Sdk.Decimal, and
--     Sdk.Transport is src/node-rpc.ts, the requests to a node.
--   * packages/contracts/src/PonsPrediction.sol settles a round and grants entitlements. Market
--     models that part, since packages/sdk/src/payout.ts mirrors it: it is the specification of the
--     SDK, to which Sdk.Exact and Sdk.Estimate relate it. Market.Entry is how it refuses a stake.
--   * apps/keeper pushes the rounds forward. Keeper.State is src/state.ts, the state that survives a
--     restart, and Keeper.Tx is `TxSender.send` of src/tx.ts, which writes a transaction, waits for
--     its receipt, replaces it with higher fees, and retries. Keeper.Loop is src/keeper.ts, the loop
--     that asks the contract for work and calls `send`, Keeper.Health is the judgement of
--     src/health.ts, Keeper.Config is src/config.ts, Keeper.Rpc the
--     health of the endpoints of src/rpc.ts, and Keeper.Lock is src/lock.ts, with several
--     keepers that share a lock in Keeper.Lock.Exclusion.
--   * apps/indexer derives tables from the contract's logs. Indexer.Table is the SQL that it issues,
--     Indexer.Store the tables of migrations/, Indexer.Rows, Indexer.Statements and
--     Indexer.Handlers are src/handlers.ts, and Indexer.Engine is src/indexer.ts: the start, the
--     cursor, a tick, the check for a reorganisation and the batch that commits with its cursor.
--     Indexer.Engine.Replica and Indexer.Engine.CatchUp compare the tables with the logs of a
--     history of blocks, and Indexer.Engine.Reorg with those of a chain that replaces another, by
--     Indexer.Handlers.Reorg on the five tables that carry a block; Indexer.Engine.Senders sets the
--     column aside that a swallowed `getTransaction` leaves empty. Indexer.Engine.Samples is
--     `samplePrice`. Indexer.Migrate is `migrate` of src/db.ts.
--   * apps/api answers from those tables; Api.Router is src/router.ts, which matches a path to a
--     handler and turns its exception into a status; what `new URL`, `decodeURIComponent` and
--     `JSON.stringify` make of a text are its parameters. The other modules of Api are the handlers of
--     src/index.ts: Rounds, Stats, Users, Candles, Leaderboard, Burn and Live, over the SQL of Api.Sql
--     and Api.Joins, with what they share in Api.Queries. They read the tables of Indexer.Store.
--   * apps/web serves the interface; Web.Proxy is src/app/rpc/route.ts, the proxy to the chain, and
--     Web.Entry is what src/components/PredictionModal.tsx, PredictPanel.tsx and QuickBet.tsx decide
--     when one enters a round. Market.Entry is the contract's side of that. Web.Positions is how
--     src/hooks/useMarket.ts reads the positions of a wallet, and what MyPredictions.tsx and
--     LegacyClaims.tsx show and claim of them; Market.Claims is the contract's side.
--
-- How the code corresponds. A function of the source has the same name in snake case. An object
-- that is mutated is a record that a function takes and returns. What the chain, the wallet, the
-- file system and the clock answer is an argument: `send` takes one record of replies for the calls
-- before its loop and one for each pass, and a tick of the keeper or of the indexer takes the answers
-- to all its questions. A Solidity uint256 and a non-negative BigInt are natural
-- numbers, and a BigInt difference is an integer. Addresses, hashes and times are opaque numbers;
-- texts are lists of code units. A table is the list of its rows for one chain.
--
-- Bounds. `send_loop` counts down the attempts that are left, as the loop of the source counts up to
-- `maxAttempts`: it has no fuel beside them. A client's walk over the pages of rounds has a request
-- for each unit of fuel, and one more than there are rounds is enough. All other recursion is on a
-- list, but for the digits of a number, which are at most as many as the number. Times and counts
-- are taken to stay below 2^53, where `Number` of a text is exact.
--
-- Not modelled: viem, PostgreSQL, Redis and Node themselves, logging, the generated
-- ABIs, the other contracts, the rendering of the interface, the development scripts, and
-- packages/sdk/src/client.ts, which is calls of viem.
--
-- Base holds what the modules share, and Examples the tests and the theorems at concrete inputs.
pub mod Base
pub mod Sdk
pub mod Market
pub mod Keeper
pub mod Indexer
pub mod Api
pub mod Web
pub mod Examples
