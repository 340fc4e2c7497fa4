-- ===== src/Auth/Exchange/Sample.antt =====
-- A curve for the tests: the products of a group of numbers stand for the points.
use orbitnet.Base.{◌*◌, ap, not, ◌==◌, replicate}
use native.Mathlib.Nat.{mul_comm}
use orbitnet.Wire.Bytes.{Bytes, le_bytes, le_value}
use orbitnet.Auth.Exchange.{Curve}
use orbitnet.Auth.Exchange.Agree.{IsCommutative}

abbrev pub powers : Curve
powers = record {
  public_key = λ secret. secret;
  diffie_hellman = λ secret public. le_bytes 32 (le_value secret * le_value public);
  was_contributory = λ shared. not (le_value shared == 0);
}

pub powers-IsCommutative : IsCommutative powers
powers-IsCommutative a b = ap (le_bytes 32) (mul_comm (le_value a) (le_value b))

abbrev pub joiner_key : Bytes
joiner_key = replicate 32 3

abbrev pub static_key : Bytes
static_key = replicate 32 5

abbrev pub ephemeral_key : Bytes
ephemeral_key = replicate 32 7
