-- ===== src/Json.antt =====
-- What broker/market_adapter.go uses of Go's encoding/json: Unmarshal of a text into a struct of
-- integers, strings and slices of structs. The text is checked as a whole first, as Unmarshal does.
mod Syntax
mod Numbers
mod Lexer
mod Reader
mod Decoding
mod Literals
mod Documents
mod Reading
mod Tests
unfoldable pub use Syntax.*
unfoldable pub use Numbers.*
unfoldable pub use Lexer.*
unfoldable pub use Reader.*
unfoldable pub use Decoding.*
unfoldable pub use Literals.*
unfoldable pub use Documents.*
unfoldable pub use Reading.*
