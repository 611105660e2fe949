-- ===== src/Json/Numbers.antt =====
-- The grammar of numbers in encoding/json, and strconv.ParseInt and ParseUint for base 10.
use fin_kit.Prelude.{
  ℕ, ◌+◌, ◌*◌, ◌-◌, ◌^◌, Bool, true, false, ◌&&◌, ◌||◌, Option, none, some, [], ◌∷◌, if◌then◌else◌,
  nat_eqb, leb, ltb,
}
use fin_kit.Prelude.Int.{ℤ, pos, sub_ℕ}
use fin_kit.Json.Syntax.{Bytes}

abbrev pub is_digit : ℕ → Bool
is_digit c = leb 48 c && leb c 57

-- Where the scanner of a number is.
pub data Part : Type 0 where
  start after_minus after_zero in_integer after_dot in_fraction after_e after_sign in_exponent :
      Part

-- `.` or an exponent after the integer part, an exponent after the fraction: `.` is 46, `e` 101, `E` 69.
abbrev exponent : ℕ → Option Part
exponent c = if nat_eqb c 101 || nat_eqb c 69 then some after_e else none

abbrev fraction : ℕ → Option Part
fraction c = if nat_eqb c 46 then some after_dot else exponent c

-- `0` is 48, `-` is 45, `+` is 43.
unfoldable pub number_step : Part → ℕ → Option Part
number_step start c =
    if nat_eqb c 45
    then some after_minus
    else if nat_eqb c 48
    then some after_zero
    else if is_digit c
    then some in_integer
    else none
number_step after_minus c =
    if nat_eqb c 48 then some after_zero else if is_digit c then some in_integer else none
number_step after_zero c = fraction c
number_step in_integer c = if is_digit c then some in_integer else fraction c
number_step after_dot c = if is_digit c then some in_fraction else none
number_step in_fraction c = if is_digit c then some in_fraction else exponent c
number_step after_e c =
    if nat_eqb c 43 || nat_eqb c 45
    then some after_sign
    else if is_digit c
    then some in_exponent
    else none
number_step after_sign c = if is_digit c then some in_exponent else none
number_step in_exponent c = if is_digit c then some in_exponent else none

-- Can the number end here?
abbrev ends : Part → Bool
ends start = false
ends after_minus = false
ends after_zero = true
ends in_integer = true
ends after_dot = false
ends in_fraction = true
ends after_e = false
ends after_sign = false
ends in_exponent = true

unfoldable pub is_number_from : Part → Bytes → Bool
unfolding number_step
is_number_from p [] = ends p
is_number_from p (c ∷ cs) = elim (number_step p c) [ none ↦ false | some q ↦ is_number_from q cs ]

unfoldable pub is_number : Bytes → Bool
unfolding is_number_from
is_number w = is_number_from start w

-- The digits up to the end, after those whose value is `n`.
unfoldable pub digits_value : ℕ → Bytes → Option ℕ
digits_value n [] = some n
digits_value n (c ∷ cs) =
    let rest = digits_value (10 * n + (c - 48)) cs in if is_digit c then rest else none

unfoldable pub unsigned : Bytes → Option ℕ
unfolding digits_value
unsigned [] = none
unsigned (c ∷ cs) = digits_value 0 (c ∷ cs)

-- A number below 2^(bits).
abbrev below : ℕ → Option ℕ → Option ℕ
below bits none = none
below bits (some n) = if ltb n (2 ^ bits) then some n else none

-- A uint32: a value with a sign is refused.
unfoldable pub parse_uint32 : Bytes → Option ℕ
unfolding unsigned
parse_uint32 w = below 32 (unsigned w)

abbrev negated : Option ℕ → Option ℤ
negated none = none
negated (some n) = if leb n (2 ^ 63) then some (sub_ℕ 0 n) else none

abbrev positive : Option ℕ → Option ℤ
positive none = none
positive (some n) = if ltb n (2 ^ 63) then some (pos n) else none

unfoldable pub parse_int64 : Bytes → Option ℤ
unfolding unsigned
parse_int64 [] = none
parse_int64 (c ∷ cs) =
    if nat_eqb c 45
    then negated (unsigned cs)
    else if nat_eqb c 43
    then positive (unsigned cs)
    else positive (unsigned (c ∷ cs))
