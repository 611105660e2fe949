-- ===== src/Json/Literals.antt =====
-- The decimal literals of integers: they are numbers of the grammar, and ParseInt reads them back.
use fin_kit.Prelude.{
  ℕ, zero, suc, ◌+◌, ◌/◌, ◌%◌, ◌^◌, ◌<◌, ◌≤◌, ◌≡◌, refl, Bool-cases, inl, inr, Bool, true, false,
  some, [], ◌∷◌, arith, if◌then◌else◌, ltb,
}
use fin_kit.Prelude.Int.{ℤ, pos, negsuc}
use fin_kit.Prelude.Int64.{IsInt64}
use fin_kit.Json.Syntax.{Bytes}
use fin_kit.Json.Numbers.{
  Part, start, after_minus, in_integer, is_number_from, is_number, digits_value, unsigned,
  parse_int64, parse_uint32,
}

-- The digits of `n` before `rest`. A fuel of `n` is enough.
unfoldable pub digits : ℕ → ℕ → Bytes → Bytes
digits zero n rest = (48 + n) ∷ rest
digits (suc fuel) n rest =
    let more = digits fuel (n / 10) ((48 + n % 10) ∷ rest) in
    if ltb n 10 then (48 + n) ∷ rest else more

unfoldable pub literal : ℤ → Bytes
unfolding digits
literal (pos n) = digits n n []
literal (negsuc n) = 45 ∷ digits (suc n) (suc n) []

digits_value-digits :
    (fuel n : ℕ) (rest : Bytes)
    → n ≤ fuel
    → digits_value 0 (digits fuel n rest) ≡ digits_value n rest
unfolding digits digits_value
digits_value-digits zero n rest h = ground arith
digits_value-digits (suc fuel) n rest h =
    ground (arith, digits_value-digits fuel (n / 10) ((48 + n % 10) ∷ rest))

-- Where a number starts, and after its sign.
abbrev first_part : Bool → Part
first_part true = after_minus
first_part false = start

-- Without a leading zero.
is_number_from-digits :
    (signed : Bool) (fuel n : ℕ) (rest : Bytes)
    → n ≤ fuel
    → 1 ≤ n
    → is_number_from (first_part signed) (digits fuel n rest) ≡ is_number_from in_integer rest
unfolding digits is_number_from
is_number_from-digits signed zero n rest h least = absurd (omega arith)
is_number_from-digits true (suc fuel) n rest h least =
    ground (arith, is_number_from-digits true fuel (n / 10) ((48 + n % 10) ∷ rest))
is_number_from-digits false (suc fuel) n rest h least =
    ground (arith, is_number_from-digits false fuel (n / 10) ((48 + n % 10) ∷ rest))

-- The digits start with a digit.
first_digit :
    (fuel n : ℕ) (rest : Bytes)
    → n ≤ fuel
    → (c : ℕ) × (cs : Bytes) × (digits fuel n rest ≡ c ∷ cs) × (48 ≤ c) × (c ≤ 57)
unfolding digits
first_digit zero n rest h = (48 + n, rest, refl, omega arith, omega arith)
first_digit (suc fuel) n rest h =
    let (c, cs, more, low, high) = first_digit fuel (n / 10) ((48 + n % 10) ∷ rest) (omega arith) in
    elim (Bool-cases (ltb n 10)) [
      | inl small ↦ (48 + n, rest, rw small refl, omega arith, ground arith)
      | inr large ↦ (c, cs, rw large more, low, high)
    ]

unsigned-digits : (n : ℕ) → unsigned (digits n n []) ≡ some n
unfolding unsigned
unsigned-digits n =
    let (c, cs, shape, _, _) = first_digit n n [] (omega arith) in
    ground (arith, shape, digits_value-digits n n [] (omega arith))

pub is_number-literal : (n : ℤ) → is_number (literal n) ≡ true
unfolding literal is_number
is_number-literal (pos zero) = refl
is_number-literal (pos (suc n)) = ground (arith, is_number_from-digits false (suc n) (suc n) [])
is_number-literal (negsuc n) = ground (arith, is_number_from-digits true (suc n) (suc n) [])

pub parse_int64-literal : (n : ℤ) → IsInt64 n → parse_int64 (literal n) ≡ some n
unfolding literal parse_int64
parse_int64-literal (pos n) h =
    let (c, cs, shape, low, high) = first_digit n n [] (omega arith) in
    ground (arith, shape, unsigned-digits n)
parse_int64-literal (negsuc n) h = ground (arith, unsigned-digits (suc n))

pub parse_uint32-literal : (n : ℕ) → n < 2 ^ 32 → parse_uint32 (literal (pos n)) ≡ some n
unfolding literal parse_uint32
parse_uint32-literal n h = ground (arith, unsigned-digits n)
