-- ===== src/Clock/Arithmetic.antt =====
-- An arithmetic for the tests: whole numbers stand for the doubles.
use orbitnet.Base.{◌+◌, ◌-◌, ◌*◌, ◌/◌}
use orbitnet.Base.Int.{pos, pos_part}
use orbitnet.Base.Doubles.{Double}

abbrev pub whole_numbers : Double
whole_numbers = record {
  add = λ x y. x + y;
  sub = λ x y. x - y;
  mul = λ x y. x * y;
  div = λ x y. x / y;
  ceil = λ x. x;
  of_ℤ = λ z. pos_part z;
  to_u64 = λ x. x;
  to_i64 = λ x. pos x;
}
