-- ===== src/CoinSelection.antt =====
-- ghost-shard-sdk/src/coinSelection.ts: the choice of the shards that pay for a transfer, and of
-- the amounts that each pays out and keeps as change. Children: Splits (`generateSplitsForShard`),
-- Metrics (`calculateCompressionMetrics`), Allocation (the allocation loop of
-- `runSelectionEngine`), Engine (the rest of it) and Select (`selectCoins` and its branches).
pub mod Errors
pub mod Splits
pub mod Metrics
pub mod Allocation
pub mod Engine
pub mod Select
mod Examples
