-- ===== src/Lib.antt =====
-- StellaX: the off-chain services around the StellaX contracts.
--
-- The repository's TypeScript services watch and drive a set of Soroban contracts. The keeper
-- (packages/keeper) runs workers on timers: each reads a snapshot from the indexer, an HTTP API or a
-- simulated call, decides what to do, and invokes contract methods through one Soroban client. The
-- indexer (packages/indexer) polls the chain's events into SQLite tables and serves them. The SDK
-- (packages/sdk) turns a method and its arguments into a call of a contract and what the contract returns
-- into a record, and it decodes the bridge's payloads. The web client (packages/frontend) reads the events
-- of a close or a liquidation and keeps the session's positions.
--
-- The files:
--   Base, Base/*: numbers, integers, lists, the stable sort; shared by all others.
--   Keeper/Chain: the client's `invoke` as a parameter `Chain W`, a function from a call and the state of
--     the world to success or failure and the world after it, the chain that also keeps a log of the calls,
--     and the loop that tries every item.
--   Keeper/Clob: `matchBook` and `tick` of packages/keeper/src/workers/clob-matcher.ts.
--   Keeper/Yield: `processFeed` of packages/keeper/src/workers/yield-simulator.ts.
--   Keeper/Sweeper: `tick` of packages/keeper/src/workers/slp-fee-sweeper.ts.
--   Keeper/AdminOracle: `onStart` and `tick` of packages/keeper/src/workers/admin-oracle-pusher.ts; in
--     `run_ticks` the ticks are one after the other, in `run_moments` they overlap.
--   Keeper/Bridge: packages/keeper/src/workers/bridge-keeper.ts, the state of `BridgeKeeper` and `tick`.
--   Keeper/Liquidation: `tick` of packages/keeper/src/workers/liquidation-bot.ts.
--   Keeper/Worker: `BaseWorker` of packages/keeper/src/worker.ts, with what the event loop may do next as
--     a step relation in Worker/Reach.
--   Keeper/Queue: `txQueue` of packages/keeper/src/stellar.ts, as a step relation.
--   Keeper/Sweeps: the ticks of packages/keeper/src/workers/funding-updater.ts, funding-settler.ts and
--     vault-roller.ts.
--   Keeper/Ttl: `tick` of packages/keeper/src/workers/ttl-extender.ts.
--   Keeper/Pusher: `tick` of packages/keeper/src/workers/oracle-pusher.ts.
--   Keeper/Redstone, Keeper/Health: `fetch` of packages/keeper/src/redstone.ts, `buildReport` of
--     packages/keeper/src/health.ts.
--   Keeper/Nav, Keeper/NavPusher: packages/keeper/src/rwa-nav.ts and workers/rwa-nav-pusher.ts.
--   Keeper/Sources: packages/keeper/src/indexer-sources.ts and `IndexerPositionSource`; Sources/Served,
--     Sources/Holders and Sources/Positions put them behind the indexer's queries.
--   Keeper/Invoke: `invokeInner` and, in Invoke/Extend, `extendTtl` of packages/keeper/src/stellar.ts:
--     retries, polling, errors.
--   Keeper/Wire: the method and the arguments that each call of the workers is sent with; Wire/Fits holds
--     them against the interfaces of the contracts.
--   Sdk/Js, Sdk/Gmp: JavaScript's number parsing and `trim`, and `decodeDepositPayload` of
--     packages/sdk/src/bridge/axelar-gmp.ts.
--   Sdk/Native, Sdk/Xdr: values of JavaScript with the conversions that the SDK applies to them, and
--     @stellar/stellar-sdk as an interface, a record of its functions and their laws; Xdr/Model fills it.
--   Sdk/ScVal, ScVal/Structs: `enc`, `dec` and `structs` of packages/sdk/src/core/scval.ts, and types.ts.
--   Sdk/Client: `ContractClient` of packages/sdk/src/core/client.ts. A method is the call that it makes;
--     Client/Conforms says when a call fits the interface of a contract.
--   Sdk/Perp, Vault, Treasury, Risk, Bridge, SlpVault, Governor, RwaIssuer, Staking, Structured, Funding,
--     Oracle, Clob: the clients of packages/sdk/src/clients, one function for each method. In Fits each has
--     the functions of its contract (contracts/stellax-*/src/lib.rs) with the types of their parameters.
--   Indexer/Rows, Indexer/Store: the tables of packages/indexer/src/db.ts as lists of rows in the order of
--     their rowids, and the statements that write to them as functions on the record of the tables.
--   Indexer/Queries: the queries of packages/indexer/src/db.ts.
--   Indexer/Api, Indexer/Params, Indexer/Candles: `broadcast`, the parsing of parameters and `toCandles`
--     of packages/indexer/src/api.ts.
--   Indexer/Watcher: `tick`, `resolveStartLedger`, `recoverCursorFromRangeError` and `persist` of
--     packages/indexer/src/watcher.ts.
--   Indexer/Decode: `decode` and `contractFilters` of packages/indexer/src/watcher.ts, with the decoders in
--     Decode/Decoders and the values they read in Decode/Values.
--   Frontend/Session, Frontend/Storage: packages/frontend/src/stores/sessionStore.ts.
--   Frontend/Events: packages/frontend/src/stellar/parseCloseEvents.ts.
--
-- A `bigint` is an integer or, where the source's values are not negative, a natural number; neither wraps
-- around. A clock, an answer of a server and the outcome of a call are inputs. The loop over the batches
-- of deltas has the number of deltas as fuel, which a positive batch size never exhausts; the fill of the
-- candles has the number of its steps, the digits of a number the number. A price that the source
-- computes with doubles is exact. The watcher's loop runs over the list of the server's answers and
-- returns nothing where the list is too short.
--
-- Not modelled: logging and configuration; `lock` and the reads of Axelar's API in the bridge's client and
-- `fetchPythVaa`, which are HTTP and JSON; a number that a double cannot hold exactly; the HTTP routes and
-- requests; SQLite's, JSON's and XDR's own code; the web client's components; the contracts.
pub mod Base
pub mod Keeper
pub mod Sdk
pub mod Indexer
pub mod Frontend
