-- ===== src/Core.antt =====
-- What exchange/ and broker/ use of code that is not in the repository: the core order book of
-- exchange-c (`coreob`), the integer map of hash-c (`hashsdk`), the snapshots of the exchange module,
-- the subscribers, and float64 arithmetic.
-- Each is an interface: a record of operations that the models take as a parameter. What a theorem
-- relies on is a record of laws beside it.
mod Orders
mod Books
mod Maps
mod Floats
mod Feeds
pub mod Samples
pub mod FeedSamples
pub use Orders.*
pub use Books.*
pub use Maps.*
pub use Floats.*
pub use Feeds.*
