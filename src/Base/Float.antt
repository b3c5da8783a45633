-- ===== src/Base/Float.antt =====
-- Python's `float`. Every finite double is an integer multiple of 2^-1074, and is modelled by that
-- integer, so that comparisons are exact; the two infinities and NaN are values of their own.
use mathlib.Core.Path.{◌≡◌}
use mathlib.Core.Bool.{Bool, true, false}
use native.Mathlib.Omega.{arith}
use bybit_crypto_monitor_tel.Base.Int.{ℤ, pos, ltb_ℤ, leb_ℤ}

pub data Float : Type 0 where
  finite : ℤ → Float
  infinity minus_infinity nan : Float

abbrev pub zero_float : Float
zero_float = finite (pos 0)

-- `a < b`; every comparison with NaN is false.
abbrev pub float_lt : Float → Float → Bool
float_lt nan b = false
float_lt infinity b = false
float_lt a nan = false
float_lt a minus_infinity = false
float_lt minus_infinity b = true
float_lt (finite m) infinity = true
float_lt (finite m) (finite n) = ltb_ℤ m n

-- `a <= b`
abbrev pub float_le : Float → Float → Bool
float_le nan b = false
float_le a nan = false
float_le minus_infinity b = true
float_le a infinity = true
float_le infinity b = false
float_le a minus_infinity = false
float_le (finite m) (finite n) = leb_ℤ m n

-- `math.isfinite`
abbrev pub is_finite : Float → Bool
is_finite (finite n) = true
is_finite _ = false

pub float_lt_trans :
    (a b c : Float) → float_lt a b ≡ true → float_lt b c ≡ true → float_lt a c ≡ true
float_lt_trans a b c h k = ground arith

-- No value is below itself.
pub float_lt_irrefl : (a : Float) → float_lt a a ≡ false
float_lt_irrefl a = ground arith

abbrev pub is_nan : Float → Bool
is_nan nan = true
is_nan _ = false

-- Away from NaN, "not below" is transitive.
pub float_le_trans :
    (a b c : Float)
    → is_nan b ≡ false
    → float_lt b a ≡ false
    → float_lt c b ≡ false
    → float_lt c a ≡ false
float_le_trans a b c n h k = ground arith

-- What is above some value is not NaN.
pub float_lt-not_nan : (a b : Float) → float_lt a b ≡ true → is_nan b ≡ false
float_lt-not_nan a b h = ground arith

pub float_lt-asym : (a b : Float) → float_lt a b ≡ true → float_lt b a ≡ false
float_lt-asym a b h = ground arith
