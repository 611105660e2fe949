-- ===== src/Json/Tests.antt =====
-- Texts that encoding/json takes and refuses.
use fin_kit.Prelude.{◌≡◌, refl, true, false, none, some, [], ◌∷◌}
use fin_kit.Prelude.Int.{negsuc}
use fin_kit.Json.Syntax.{
  bytes, null, number, text, array, object, no_values, value, no_members, member,
}
use fin_kit.Json.Numbers.{is_number, parse_int64, parse_uint32}
use fin_kit.Json.Reader.{parse}
use fin_kit.Json.Decoding.{names}

object-parse :
    parse (bytes " {\"a\": [1, null],\"b\\u0043\":\"x\\n\"}")
    ≡ some (
        object (
          member
            (bytes "a")
            (array (value (number (bytes "1")) (value null no_values)))
            (member (bytes "bC") (text (120 ∷ 10 ∷ [])) no_members)))
unfolding parse
object-parse = refl

trailing-parse : parse (bytes "[1,]") ≡ none
unfolding parse
trailing-parse = refl

two_values-parse : parse (bytes "1 2") ≡ none
unfolding parse
two_values-parse = refl

open-parse : parse (bytes "{\"a\":1") ≡ none
unfolding parse
open-parse = refl

empty-parse : parse [] ≡ none
unfolding parse
empty-parse = refl

leading_zero-is_number : is_number (bytes "01") ≡ false
unfolding is_number
leading_zero-is_number = refl

exponent-is_number : is_number (bytes "-1.50e+3") ≡ true
unfolding is_number
exponent-is_number = refl

exponent-parse_int64 : parse_int64 (bytes "1e2") ≡ none
unfolding parse_int64
exponent-parse_int64 = refl

least-parse_int64 :
    parse_int64 (bytes "-9223372036854775808") ≡ some (negsuc 9_223_372_036_854_775_807)
unfolding parse_int64
least-parse_int64 = refl

large-parse_int64 : parse_int64 (bytes "9223372036854775808") ≡ none
unfolding parse_int64
large-parse_int64 = refl

large-parse_uint32 : parse_uint32 (bytes "4294967296") ≡ none
unfolding parse_uint32
large-parse_uint32 = refl

other_case-names : names (bytes "order_id") (bytes "Order_ID") ≡ true
unfolding names
other_case-names = refl
