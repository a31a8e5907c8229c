-- ===== src/Lib.antt =====
-- GhostShard is a wallet that holds its assets in one-time accounts ("shards"). To pay, the wallet
-- selects shards, cuts each into payment and change outputs, and hands the transaction to a relayer
-- whose gas a paymaster sponsors. The program has an SDK (ghost-shard-sdk/src) and the services
-- (ghost-services/src).
--
-- Which file models which part:
--   Prelude        shared names, Boolean tests, lists, and signed integers for `bigint`
--   Types          the data types of ghost-shard-sdk/src/types.ts
--   Viem           what is relied on of the library viem, as a parameter
--   Random         `randomFloat` and `shuffle` of ghost-shard-sdk/src/coinSelection.ts
--   CoinSelection  the rest of ghost-shard-sdk/src/coinSelection.ts: Metrics
--                  (`calculateCompressionMetrics`), Splits (`generateSplitsForShard`), Allocation
--                  (the allocation loop), Engine (`runSelectionEngine`), Select (`selectCoins`)
--   ShardStore     the class `ShardStore` of ghost-shard-sdk/src/shard.ts: what each method does to
--                  look-ups (Lookup), to what may be spent (Pending) and to the balance (Balance),
--                  the invariant of every reachable store (Distinct), and the map from addresses
--                  to shards that the store implements (Refinement)
--   Client         the methods of `GhostClient` (ghost-shard-sdk/src/index.ts) that work on the store,
--                  with the removal of the spent shards (Spent); it selects from what the store
--                  gives out, and records what is prepared
--   Relayer        ghost-services/src/relayer: the escrow accounting (Escrow) and the queue (Queue) of
--                  queue.ts, and `relay` of service.ts (Service), which reads the escrow and enqueues
--   GasEngine      ghost-services/src/common/gasEngine.ts: the authorization list (Authorizations) and
--                  the gas limits (Limits); its limits are what a relay is charged for
--   Transaction    the fusion of commands in ghost-shard-sdk/src/transaction.ts: the values moved
--                  (Fusion) and the keys of the fused commands (Uniqueness), and what both are for a
--                  shard, an asset type, a token and a recipient (Targets); the commands for ERC721
--                  tokens (Nfts)
--   Multicall      ghost-shard-sdk/src/multicall.ts: the calls and their assets (Correlation)
--   Noble          what is relied on of the library noble (curve, hashes) and of AES-GCM, as parameters
--   Keys           ghost-shard-sdk/src/keys.ts and the key pairs of stealth.ts: the numbers (Numbers), the
--                  search of a valid key (Normal), shared secrets and stealth addresses (Ownership)
--   MetaAddress    ghost-shard-sdk/src/metaAddress.ts, and `generateStealthAddress` of stealth.ts
--   Announce       ghost-shard-sdk/src/announce.ts: the metadata of an announcement and its places (Layout)
--   Discovery      ghost-shard-sdk/src/discovery.ts and parse.ts: the metadata read back (RoundTrip), the
--                  chunks (Chunks), and the way from a sender to the recipient (Sent, Found)
--   Transfer       the rest of ghost-shard-sdk/src/transaction.ts: the loops that both transfers share
--                  (Loops), `prepareTransfer` (Public), `preparePrivateTransfer` (Private) and
--                  `preparePrivateDeposit` (Deposit); what transfers move (Conservation) and announce
--                  (Announced). It takes the matrices that CoinSelection computes.
--   Rpc            the retries (Retries) and the batches (Nonces) of ghost-shard-sdk/src/rpc.ts
--   Paymaster      ghost-services/src/paymaster/service.ts, its list of users in ghost-services/src/config.ts
--                  (Allowlist) and its route in ghost-services/src/index.ts; it takes its limits from
--                  GasEngine
--
-- The relay queue is a machine that moves between the points where the code awaits something: its
-- runs are the type `Reached` of Relayer/Queue/Reach.antt. What the chain answers is given to the
-- functions that read it: `relay` reads the debt in one state of the queue, and enqueues in the state
-- that the queue has come to when it goes on. Not modelled: `checkInnerExecutionStatus`, which
-- decodes an event, `buildUserBundleHash`, whose hash is only for the recovery of the user, the
-- registry, the relay route; storage, events and the network.
--
-- A `bigint` is an integer, a hex string the list of its character codes, an exception an error
-- value. A random number is drawn from a given sequence of 32-bit words: a function that draws
-- takes the number of words used and returns it beside its result. `Number` of a `bigint`
-- is a parameter that is exact up to 2^53 - 1. Floating-point arithmetic is not modelled:
-- `Math.floor(randomFloat() * k)` is a parameter with the facts that hold of it.
-- Every loop is structural recursion on the list or the count that it runs over, so no fuel is
-- needed, but for the chunks of the discovery and of the removal of spent shards: they have as many
-- rounds as there are logs or addresses, and each round takes one at least. The curve, the hashes,
-- the cipher and the encoding of calls are parameters with the laws that are documented of them, and
-- with concrete instances in Noble/Instances and Viem/Instances, which the examples run on.
pub mod Announce
pub mod Client
pub mod CoinSelection
pub mod Discovery
pub mod GasEngine
pub mod Keys
pub mod MetaAddress
pub mod Multicall
pub mod Noble
pub mod Paymaster
pub mod Prelude
pub mod Random
pub mod Relayer
pub mod Rpc
pub mod ShardStore
pub mod Transaction
pub mod Transfer
pub mod Types
pub mod Viem
