-- ===== src/Broker.antt =====
-- Package broker: an order book rebuilt from market data, its snapshots and their subscribers, the
-- validation of a rebuilt book, and the adapter of raw market data.
pub mod Types
pub mod Metrics
pub mod Publisher
pub mod Snapshots
pub mod OrderBook
pub mod Validator
pub mod Adapter
