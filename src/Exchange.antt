-- ===== src/Exchange.antt =====
-- Package exchange: the order types, the self-trade check, the matcher, the order book, the trade
-- reporter, and the matching engine that drives them.
pub mod OrderType
pub mod SelfTrade
pub mod Matcher
pub mod OrderBook
pub mod Heap
pub mod TradeReport
pub mod ErrorText
pub mod Names
pub mod Engine
