-- ===== src/Lib.antt =====
-- fin-kit's Go packages as models, with the theorems that make them correct.
--
-- The program. exchange/ is a matching engine: order_type.go has the orders, trades and errors,
-- order_matcher.go matches an incoming order against a core order book, self_trade.go keeps the
-- orders of each account and tests for self-trades, orderbook.go keeps the accounts of a core book's
-- orders and the self-trade check in step with them, trade_report.go tracks what is filled of each
-- order, and matching_engine.go drives these for several symbols. broker/ rebuilds an order book from
-- market data: market_adapter.go reads messages, broker_orderbook.go applies them to a core book,
-- snapshot.go makes snapshots of it and publisher.go passes them to subscribers, validator.go compares
-- a snapshot with the exchange's, metrics.go counts. The core order book, the hash map and the
-- generator of snapshots are third-party Go modules, and the C libraries are submodules.
--
-- The models.
--   Prelude: shared names; Prelude/Int and Prelude/Int64 are Go's int64, whose sums and differences
--     wrap; Prelude/Dict is Go's built-in map, as an association list.
--   Core: the interfaces of code that is not in the repository. `CoreBook` has the operations of
--     exchange-c's order book that the program calls, `Int64Map` those of hash-c's map; `IsBook`
--     and `IsMap` are the laws that theorems assume of them. `Float64` has float64 and its
--     operations, and `IsFloat` what comparisons of equal values rely on. `Feed` generates
--     snapshots, `Subscribers` receive them. Core/Orders has the data that passes through a core
--     book; a price level carries the address of its pointer, since the matcher compares level
--     pointers, and its nodes as a list. Core/Samples has a book, a map and numbers that keep the
--     laws, Core/FeedSamples a generator and subscribers.
--   Json: what broker/market_adapter.go uses of encoding/json. Lexer scans the bytes of a text, Reader
--     parses the tokens with a stack, Numbers reads integers, Decoding fills structs by the names of
--     members. Literals, Documents and Reading are about texts that are written and read back.
--   Exchange/OrderType: exchange/order_type.go. `new_order` is NewOrder, and so on: the functions
--     keep the source's names in lower case.
--   Exchange/SelfTrade: exchange/self_trade.go, every method. Invariant has the representation
--     invariant, Contents the view of the check as one map from account and order ID, Removal
--     UnregisterOrder by what GetAccountOrders lists, Queries what the queries list and count.
--   Exchange/Matcher: exchange/order_matcher.go, every function. Matcher/Step has the loops over
--     nodes and levels. Matcher/Offers has the specification: the queue of `Offer`s that an order
--     may trade with, and the greedy `allocate` over it; Greedy proves the loops equal to it,
--     Dispatch Match itself, with each trade written out as a deal between two orders. Amounts, Fills
--     and Resting are about quantities, Terms about parties and prices, Liquidity and Fok about Fill-Or-Kill orders, Validation about order creation.
--   Exchange/OrderBook: exchange/orderbook.go, every method but two getters of one field. Agreement
--     relates the account map to the core book, Tracking the account map to the self-trade check,
--     Accounts the copy of the account map. Its tests run over the books and maps of Core/Samples,
--     which keep the laws that the theorems assume.
--   Exchange/Heap, Exchange/TradeReport: exchange/trade_report.go, every method, over a heap of the
--     orders, trades and tracked orders that the program shares by pointer. TradeReport/Report has
--     what is computed of one tracked order; Ledger, Sides and Calls prove the counters of tracked
--     orders, Identity is about their IDs. Effects says what GetOrderReport shows after RecordTrade,
--     Outcome what other calls return and leave, Stats what GetStats counts.
--   Exchange/Engine, Exchange/ErrorText: exchange/matching_engine.go, every function. Engine/State has
--     the engine, what surrounds it and the books by symbol, Engine/Submit the loop over the trades of
--     a submitted order and what follows it. Books and Runs prove that all books keep the agreement of
--     Exchange/OrderBook, Isolation says which books a call changes, Rejection what
--     becomes of an order that is refused, Unmatched of a market or IOC order that finds no offer.
--     ErrorText has the texts that reports give as reasons, Names the String methods.
--   Broker/Types, Broker/Metrics: broker/types.go and broker/metrics.go, with the errors of the package.
--   Broker/Publisher: broker/publisher.go. Delivery says who receives a snapshot.
--   Broker/Snapshots: broker/snapshot.go. Orders says what a snapshot is generated from.
--   Broker/OrderBook: broker/broker_orderbook.go, every method but the getters of one field. Increments
--     is about OnOrderIncrement, Trades about OnTrade, Sync about OnSnapshot and the virtual orders,
--     Failure about an OnSnapshot that fails, Counting about the metrics, Publication about GetSnapshot,
--     Quantities about the quantities that sequences of calls leave.
--   Broker/Validator: broker/validator.go. Counts, Validity and Matching relate the result to the lists of
--     mismatches and to the levels, Scale is about the tick size.
--   Broker/Adapter: broker/market_adapter.go. Messages has the structs that json.Unmarshal fills;
--     Trades, Increments and Snapshots write messages and read them back.
--
-- How Go is read. In the matcher an order that a function changes through its pointer is passed
-- and returned; the list of trades and the rest still to match travel with it in `Matching`. The
-- reporter and the engine work on a heap, where a pointer is a number. A method of the book, the
-- check and the reporter holds its mutex from start to end, so it is one step; a call of the
-- engine takes several locks one after another, and the model runs one call at a time. What
-- time.Now returns is an argument, for the engine a sequence of readings. All loops run over
-- finite lists, so there is no fuel, but for the digits of an int64 in an error's text, of which
-- there are 19 at most, and those of a number that a specification writes, whose fuel is the
-- number itself; a level's linked list is taken to end. The lookup of accounts is a function,
-- since nothing changes the account map while an order is matched. A nil order, which Match
-- refuses, has no counterpart in the matcher's model: it takes an order. Sums in specifications
-- (`traded`, `offered`) are unbounded integers; where a theorem needs that no int64 overflows it
-- says so by `IsInt64`.
--
-- Not modelled: getters of one field, calls of the engine that run at the same time, and the C
-- modules. float64 is a parameter, with the laws that a theorem needs; so a bound on rounding errors is
-- not stated. BuildSnapshot's allocation for 2 * topN orders, which panics for a topN near the int's
-- limit, is left out. An error of json.Unmarshal is one value, without its text, and a `\u` of half a
-- surrogate pair or a byte that is not UTF-8 is kept as a value that no word of the adapter equals.
pub mod Prelude
pub mod Core
pub mod Json
pub mod Exchange
pub mod Broker
