-- ===== src/Prelude/Int64.antt =====
-- Go's int64: an integer kept in -2^63 .. 2^63 - 1, whose sums, differences and products wrap.
use Prim.Native.Nat.{ℕ, suc, ◌≤◌, ◌+◌, ◌-◌, ◌^◌, ◌%◌, ◌<◌}
use mathlib.Core.Path.{◌≡◌, ◌∙◌}
use native.Mathlib.Omega.{arith}
use fin_kit.Prelude.Tests.{ltb, if◌then◌else◌}
use fin_kit.Prelude.Int.{
  pos_part, neg_part, ℤ, pos, negsuc, ◌+ℤ◌, ◌-ℤ◌, ◌*ℤ◌, +ℤ_parts, -ℤ_parts, eq_of_parts,
}

-- The integer of 64 bits that two's complement leaves of `z`.
pub wrap : ℤ → ℤ
wrap (pos n) = let m = n % 2 ^ 64 in if ltb m (2 ^ 63) then pos m else negsuc (2 ^ 64 - 1 - m)
wrap (negsuc n) = let m = n % 2 ^ 64 in if ltb m (2 ^ 63) then negsuc m else pos (2 ^ 64 - 1 - m)

unfoldable pub add64 : ℤ → ℤ → ℤ
unfolding wrap ◌+ℤ◌
add64 a b = wrap (a +ℤ b)

unfoldable pub sub64 : ℤ → ℤ → ℤ
unfolding wrap ◌-ℤ◌
sub64 a b = wrap (a -ℤ b)

unfoldable pub mul64 : ℤ → ℤ → ℤ
unfolding wrap ◌*ℤ◌
mul64 a b = wrap (a *ℤ b)

-- The values that an int64 takes.
abbrev pub IsInt64 : ℤ → Type 0
IsInt64 z = (pos_part z < 2 ^ 63 + neg_part z) × (neg_part z ≤ 2 ^ 63 + pos_part z)

-- Every result of `wrap` is an int64.
pub wrap-IsInt64 : (z : ℤ) → IsInt64 (wrap z)
unfolding wrap
wrap-IsInt64 (pos n) = ground arith
wrap-IsInt64 (negsuc n) = ground arith

pub wrap-id : (z : ℤ) → IsInt64 z → wrap z ≡ z
unfolding wrap
wrap-id (pos n) h = ground arith
wrap-id (negsuc n) h = ground arith

-- Where the sum fits, `add64` is the sum; so for `sub64` and `mul64`.
pub add64_fits : (a b : ℤ) → IsInt64 (a +ℤ b) → add64 a b ≡ a +ℤ b
add64_fits a b h = unfold add64 in wrap-id (a +ℤ b) h

pub sub64_fits : (a b : ℤ) → IsInt64 (a -ℤ b) → sub64 a b ≡ a -ℤ b
sub64_fits a b h = unfold sub64 in wrap-id (a -ℤ b) h

pub mul64_fits : (a b : ℤ) → IsInt64 (a *ℤ b) → mul64 a b ≡ a *ℤ b
mul64_fits a b h = unfold mul64 in wrap-id (a *ℤ b) h

-- A value and what `wrap` leaves of it are the same modulo 2^64.
wrap_parts :
    (z : ℤ) → (pos_part (wrap z) + neg_part z) % 2 ^ 64 ≡ (pos_part z + neg_part (wrap z)) % 2 ^ 64
unfolding wrap
wrap_parts (pos n) = ground arith
wrap_parts (negsuc n) = ground arith

wrap_congruent :
    (a b : ℤ)
    → (pos_part a + neg_part b) % 2 ^ 64 ≡ (pos_part b + neg_part a) % 2 ^ 64
    → wrap a ≡ wrap b
wrap_congruent a b h = ground (
  arith,
  wrap_parts a,
  wrap_parts b,
  wrap-IsInt64 a,
  wrap-IsInt64 b,
  eq_of_parts (wrap a) (wrap b),
)

-- What is moved from one counter to another leaves their sum.
pub add64-moved : (a b n : ℤ) → add64 (add64 a n) (sub64 b n) ≡ add64 a b
unfolding add64 sub64
add64-moved a b n = wrap_congruent (wrap (a +ℤ n) +ℤ wrap (b -ℤ n)) (a +ℤ b) (
    ground (
      arith,
      wrap_parts (a +ℤ n),
      wrap_parts (b -ℤ n),
      +ℤ_parts a n,
      -ℤ_parts b n,
      +ℤ_parts (wrap (a +ℤ n)) (wrap (b -ℤ n)),
      +ℤ_parts a b,
    ))

pub add64_zero : (a : ℤ) → add64 (pos 0) a ≡ wrap a
unfolding add64
add64_zero a = wrap_congruent (pos 0 +ℤ a) a (ground (arith, +ℤ_parts (pos 0) a))

pub add64_one : (a : ℤ) (n : ℕ) → add64 (add64 a (pos 1)) (pos n) ≡ add64 a (pos (suc n))
unfolding add64
add64_one a n = wrap_congruent (wrap (a +ℤ pos 1) +ℤ pos n) (a +ℤ pos (suc n)) (
    ground (
      arith,
      wrap_parts (a +ℤ pos 1),
      +ℤ_parts a (pos 1),
      +ℤ_parts (wrap (a +ℤ pos 1)) (pos n),
      +ℤ_parts a (pos (suc n)),
    ))

pub add64-IsInt64 : (a b : ℤ) → IsInt64 (add64 a b)
unfolding add64
add64-IsInt64 a b = wrap-IsInt64 (a +ℤ b)

pub add64_nil : (a : ℤ) → IsInt64 a → add64 a (pos 0) ≡ a
unfolding add64
add64_nil a h = wrap_congruent (a +ℤ pos 0) a (ground (arith, +ℤ_parts a (pos 0))) ∙ wrap-id a h

pub wrap_one : (n : ℕ) → add64 (wrap (pos n)) (pos 1) ≡ wrap (pos (n + 1))
unfolding add64
wrap_one n =
    wrap_congruent (wrap (pos n) +ℤ pos 1) (pos (n + 1))
      (ground (arith, wrap_parts (pos n), +ℤ_parts (wrap (pos n)) (pos 1)))
