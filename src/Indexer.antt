-- ===== src/Indexer.antt =====
-- The event indexer (packages/indexer): the tables, the operations on them and the poll of the chain.
pub mod Rows
pub mod Store
pub mod Watcher
pub mod Decode
pub mod Queries
pub mod Api
pub mod Params
pub mod Candles
