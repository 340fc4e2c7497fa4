-- ===== src/Quant/Sample.antt =====
-- A small schema and rows for the tests. The arithmetic here is on whole numbers; no row here packs
-- an orientation.
use orbitnet.Base.{◌+◌, ◌-◌, ◌*◌, ◌/◌, refl, max, ltb, leb, List, [], ◌∷◌}
use orbitnet.Base.Int.{pos, pos_part}
use orbitnet.Wire.Bytes.{Bytes, le_bytes, le_value}
use orbitnet.Schema.{bool, f32, PropSchema, QuantKind, half, state, stride, valid_for}
use orbitnet.Schema.Layout.{Fills}
use orbitnet.Quant.Half.{f32_to_f16_bits, f16_bits_to_f32}
use orbitnet.Quant.Ss3.{Float}
use orbitnet.Quant.{floats, words, le_all, encode_halves, decode_halves, encode_prop, decode_value}
use orbitnet.Quant.Rows.{IsCanonicalRow}

abbrev pub whole : Float
whole = record {
  add = λ x y. x + y;
  sub = λ x y. x - y;
  mul = λ x y. x * y;
  div = λ x y. x / y;
  sqrt = λ x. x;
  recip = λ x. 1 / x;
  round = λ x. x;
  max_float = λ x y. max x y;
  lt = λ x y. ltb x y;
  le = λ x y. leb x y;
  to_i32 = λ x. pos x;
  of_i32 = λ z. pos_part z;
  floor = λ x. x;
}

-- A flag, then a number as a half.
abbrev pub props : List PropSchema
props =
    record { name = 97 ∷ []; kind = bool; role = state; offset = 0; quant = QuantKind.none }
    ∷ record { name = 98 ∷ []; kind = f32; role = state; offset = 1; quant = half }
    ∷ []

abbrev pub zero_row : Bytes
zero_row = 0 ∷ 0 ∷ 0 ∷ 0 ∷ 0 ∷ []

abbrev pub one_row : Bytes
one_row = 0 ∷ 0 ∷ 0 ∷ 128 ∷ 63 ∷ []

pub props-Fills : Fills 0 props 5
unfolding stride valid_for
props-Fills = (refl, refl, (refl, refl, refl))

pub one_row-IsCanonicalRow : IsCanonicalRow whole props one_row
unfolding decode_value encode_prop encode_halves decode_halves floats words le_all le_bytes le_value
    f32_to_f16_bits f16_bits_to_f32 stride
one_row-IsCanonicalRow = (refl, (refl, tt))
