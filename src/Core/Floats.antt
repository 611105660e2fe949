-- ===== src/Core/Floats.antt =====
-- Go's float64, as far as the program computes with it: the average price of a report, the prices and
-- volumes of a snapshot, and the differences that the validator measures.
use fin_kit.Prelude.{◌≡◌, Bool, true, false}
use fin_kit.Prelude.Int.{ℤ}

pub record Float64 : Type 1 where
  pub Float : Type 0
  -- 0.0, 0.001, 0.01 and 1.0
  pub zero : Float
  pub one_thousandth : Float
  pub one_hundredth : Float
  pub one : Float
  -- the conversion of an int64
  pub of_int64 : ℤ → Float
  pub add : Float → Float → Float
  pub subtract : Float → Float → Float
  pub multiply : Float → Float → Float
  pub divide : Float → Float → Float
  -- `math.Abs`
  pub absolute : Float → Float
  -- `a < b` and `a <= b`, false where an operand is not a number
  pub less : Float → Float → Bool
  pub at_most : Float → Float → Bool

-- What the comparison of equal values relies on. An int64 is converted to a finite number.
module _ (F : Float64) where
  open F use {Float, zero, one_hundredth, one, of_int64, subtract, multiply, divide, absolute, less}

  pub record IsFloat : Type 0 where
    pub subtract_self : (n : ℤ) → absolute (subtract (of_int64 n) (of_int64 n)) ≡ zero
    pub zero_share :
        (a : Float) (n : ℤ)
        → less a zero ≡ false
        → less zero (of_int64 n) ≡ true
        → less a (divide zero (of_int64 n)) ≡ false
    pub multiply-one : (n : ℤ) → multiply (of_int64 n) one ≡ of_int64 n
    pub one_hundredth_positive : less one_hundredth zero ≡ false
