-- ===== src/Base/Doubles.antt =====
-- Doubles as the numbers of their bits: what is finite, and the comparisons, which are exact on bits.
use Prim.Native.Nat.{ℕ, ◌*◌, ◌/◌, ◌%◌, ◌^◌}
use mathlib.Core.Bool.{Bool, not, ◌&&◌}
use orbitnet.Base.Tests.{ltb, ◌==◌, if◌then◌else◌}
use orbitnet.Base.Int.{ℤ, pos, sub_ℕ, ltb_ℤ}

abbrev pub magnitude : ℕ → ℕ
magnitude bits = bits % 2 ^ 63

-- `f64::is_finite`: the exponent is not all ones.
abbrev pub is_finite_f64 : ℕ → Bool
is_finite_f64 bits = ltb (bits / 2 ^ 52 % 2048) 2047

abbrev pub is_nan_f64 : ℕ → Bool
is_nan_f64 bits = ltb (2047 * 2 ^ 52) (magnitude bits)

-- Doubles that are numbers compare as these do, and both zeros are 0.
abbrev pub ordinal : ℕ → ℤ
ordinal bits = if bits / 2 ^ 63 % 2 == 0 then pos (magnitude bits) else sub_ℕ 0 (magnitude bits)

abbrev pub lt_f64 : ℕ → ℕ → Bool
lt_f64 a b = not (is_nan_f64 a) && not (is_nan_f64 b) && ltb_ℤ (ordinal a) (ordinal b)

abbrev pub le_f64 : ℕ → ℕ → Bool
le_f64 a b = not (is_nan_f64 a) && not (is_nan_f64 b) && not (ltb_ℤ (ordinal b) (ordinal a))

abbrev pub abs_f64 : ℕ → ℕ
abs_f64 bits = magnitude bits

-- `clamp` between bounds that are in order.
abbrev pub clamp_f64 : ℕ → ℕ → ℕ → ℕ
clamp_f64 x low high = if lt_f64 x low then low else if lt_f64 high x then high else x

abbrev pub min_f64 : ℕ → ℕ → ℕ
min_f64 a b = if is_nan_f64 a then b else if lt_f64 b a then b else a

-- The arithmetic of doubles on their bits: the operators, `ceil`, and the conversions with integers,
-- of which those from doubles saturate and send what is not a number to 0.
pub record Double : Type 0 where
  pub add : ℕ → ℕ → ℕ
  pub sub : ℕ → ℕ → ℕ
  pub mul : ℕ → ℕ → ℕ
  pub div : ℕ → ℕ → ℕ
  pub ceil : ℕ → ℕ
  pub of_ℤ : ℤ → ℕ
  pub to_u64 : ℕ → ℕ
  pub to_i64 : ℕ → ℤ

abbrev pub one_f64 : ℕ
one_f64 = 0x3ff0000000000000
