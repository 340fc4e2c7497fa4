-- ===== src/Quant.antt =====
-- native/crates/orbitnet-core/src/quant.rs: rows on the wire. The float arithmetic is the parameter
-- of what packs orientations, and of all that calls it.
pub mod Half
pub mod Ss3
pub mod Sizes
pub mod Rows
pub mod Delta
pub mod Settle
pub mod Sample
mod Tests
use orbitnet.Base.{
  ℕ, zero, suc, ◌+◌, ◌-◌, ◌*◌, ◌/◌, ◌%◌, ◌^◌, Bool, true, false, ◌&&◌, Option, none, some, List, [],
  ◌∷◌, ◌++◌, map, ltb, ◌==◌, if◌then◌else◌, length, take, drop,
}
use orbitnet.Base.Doubles.{is_finite_f64}
use orbitnet.Base.Rows.{eqb_bytes, slice, splice}
use orbitnet.Wire.Bytes.{Bytes, le_bytes, le_value}
use orbitnet.Schema.{
  PropKind, bool, i32, i64, f32, f64, vec3, quat, vec2, basis, transform, QuantKind, ss3, half,
  PropSchema, stride,
}
use orbitnet.Quant.Half.{f32_to_f16_bits, f16_bits_to_f32, is_finite}
use orbitnet.Quant.Ss3.{Float, quat_to_ss3, ss3_to_quat, basis_to_quat, quat_to_basis}

unfoldable pub wire_stride : PropKind → QuantKind → ℕ
wire_stride quat ss3 = 6
wire_stride basis ss3 = 6
wire_stride vec3 half = 6
wire_stride vec2 half = 4
wire_stride f32 half = 2
wire_stride kind _ = stride kind

unfoldable pub wire_row_stride : List PropSchema → ℕ
wire_row_stride [] = 0
wire_row_stride (p ∷ ps) = wire_stride p.kind p.quant + wire_row_stride ps

-- `chunks_exact` by 4 and by 2, each chunk read as an integer, and their inverses.
unfoldable pub floats : Bytes → List ℕ
floats (a ∷ b ∷ c ∷ d ∷ rest) = le_value (a ∷ b ∷ c ∷ d ∷ []) ∷ floats rest
floats _ = []

unfoldable pub words : Bytes → List ℕ
words (a ∷ b ∷ rest) = le_value (a ∷ b ∷ []) ∷ words rest
words _ = []

unfoldable pub le_all : ℕ → List ℕ → Bytes
le_all w [] = []
le_all w (v ∷ vs) = le_bytes w v ++ le_all w vs

unfoldable pub encode_halves : Bytes → Bytes
encode_halves native = le_all 2 (map (λ v. f32_to_f16_bits v) (floats native))

unfoldable pub decode_halves : Bytes → Bytes
decode_halves wire = le_all 4 (map (λ h. f16_bits_to_f32 h) (words wire))

abbrev pub all_finite : List ℕ → Bool
all_finite [] = true
all_finite (v ∷ vs) = is_finite v && all_finite vs

unfoldable pub finite_lanes : PropKind → Bytes → Bool
unfolding floats
finite_lanes bool native = true
finite_lanes i32 native = true
finite_lanes i64 native = true
finite_lanes f64 native = is_finite_f64 (le_value native)
finite_lanes _ native = all_finite (floats native)

-- `checked_add` cannot fail on the numbers here.
unfoldable pub row_is_finite : List PropSchema → Bytes → Bool
unfolding finite_lanes
row_is_finite [] row = true
row_is_finite (p ∷ ps) row =
    let rest = row_is_finite ps row in
    if ltb (length row) (p.offset + stride p.kind)
    then false
    else finite_lanes p.kind (slice row p.offset (stride p.kind)) && rest

unfoldable pub masked_wire_size : List PropSchema → List Bool → ℕ
masked_wire_size [] mask = 0
masked_wire_size (p ∷ ps) [] = 0
masked_wire_size (p ∷ ps) (true ∷ ms) = wire_stride p.kind p.quant + masked_wire_size ps ms
masked_wire_size (p ∷ ps) (false ∷ ms) = masked_wire_size ps ms

-- What follows a property that was decoded in place, at `from`.
abbrev pub decoded_then :
    Bytes → ℕ → Option ℕ × Bytes → (ℕ → Bytes → Option ℕ × Bytes) → Option ℕ × Bytes
decoded_then row from (none, native) next = (none, splice row from native)
decoded_then row from (some consumed, native) next = next consumed (splice row from native)

module _ (f : Float) where
  unfoldable pub encode_prop : PropKind → QuantKind → Bytes → Bytes
  unfolding encode_halves floats
  encode_prop quat ss3 native = quat_to_ss3 f (floats native)
  encode_prop basis ss3 native = quat_to_ss3 f (basis_to_quat f (floats native))
  encode_prop vec3 half native = encode_halves native
  encode_prop vec2 half native = encode_halves native
  encode_prop f32 half native = encode_halves native
  encode_prop _ _ native = native

  -- What a property's bytes on the wire stand for.
  unfoldable pub decode_value : PropKind → QuantKind → Bytes → Bytes
  unfolding decode_halves le_all
  decode_value quat ss3 wire = le_all 4 (ss3_to_quat f wire)
  decode_value basis ss3 wire = le_all 4 (quat_to_basis f (ss3_to_quat f wire))
  decode_value vec3 half wire = decode_halves wire
  decode_value vec2 half wire = decode_halves wire
  decode_value f32 half wire = decode_halves wire
  decode_value _ _ wire = wire

  -- `decode_prop`: the bytes consumed, and the native slot after it.
  unfoldable pub decode_prop : PropKind → QuantKind → Bytes → Bytes → Option ℕ × Bytes
  unfolding decode_value
  decode_prop kind quant wire native =
      let width = wire_stride kind quant in
      let value = decode_value kind quant (take width wire) in
      if ltb (length wire) width
      then (none, native)
      else (some width, value ++ drop (length value) native)

  -- The loop of `canonicalize_value`.
  unfoldable pub settle : ℕ → PropKind → QuantKind → Bytes → Bytes
  unfolding encode_prop decode_prop
  settle zero kind quant native = native
  settle (suc n) kind quant native =
      let next = (decode_prop kind quant (encode_prop kind quant native) native).1 in
      let rest = settle n kind quant next in if eqb_bytes next native then next else rest

  unfoldable pub canonicalize_value : PropKind → QuantKind → Bytes → Bytes
  unfolding settle
  canonicalize_value kind QuantKind.none native = native
  canonicalize_value kind quant native = settle 8 kind quant native

  unfoldable pub encode_row : List PropSchema → Bytes → Bytes
  unfolding encode_prop
  encode_row [] row = []
  encode_row (p ∷ ps) row =
      encode_prop p.kind p.quant (slice row p.offset (stride p.kind)) ++ encode_row ps row

  -- `decode_row` from a cursor: the bytes consumed, and the row after it.
  unfoldable pub decode_from : List PropSchema → ℕ → Bytes → Bytes → Option ℕ × Bytes
  unfolding decode_prop
  decode_from [] cursor wire row = (some cursor, row)
  decode_from (p ∷ ps) cursor wire row =
      if ltb (length row) (p.offset + stride p.kind)
      then (none, row)
      else decoded_then row p.offset
          (decode_prop p.kind p.quant (drop cursor wire) (slice row p.offset (stride p.kind)))
          (λ consumed row'. decode_from ps (cursor + consumed) wire row')

  unfoldable pub decode_row : List PropSchema → Bytes → Bytes → Option ℕ × Bytes
  unfolding decode_from
  decode_row props wire row = decode_from props 0 wire row

  unfoldable pub write_masked_wire : List PropSchema → List Bool → Bytes → Bytes
  unfolding encode_prop
  write_masked_wire [] mask row = []
  write_masked_wire (p ∷ ps) [] row = []
  write_masked_wire (p ∷ ps) (true ∷ ms) row =
      encode_prop p.kind p.quant (slice row p.offset (stride p.kind)) ++ write_masked_wire ps ms row
  write_masked_wire (p ∷ ps) (false ∷ ms) row = write_masked_wire ps ms row

  -- `apply_masked_wire` from a cursor.
  unfoldable pub apply_from : List PropSchema → List Bool → ℕ → Bytes → Bytes → Option ℕ × Bytes
  unfolding decode_prop
  apply_from [] mask cursor payload row = (some cursor, row)
  apply_from (p ∷ ps) [] cursor payload row = (some cursor, row)
  apply_from (p ∷ ps) (false ∷ ms) cursor payload row = apply_from ps ms cursor payload row
  apply_from (p ∷ ps) (true ∷ ms) cursor payload row =
      if ltb (length row) (p.offset + stride p.kind)
      then (none, row)
      else decoded_then row p.offset
          (decode_prop p.kind p.quant (drop cursor payload) (slice row p.offset (stride p.kind)))
          (λ consumed row'. apply_from ps ms (cursor + consumed) payload row')

  unfoldable pub apply_masked_wire : List PropSchema → List Bool → Bytes → Bytes → Option ℕ × Bytes
  unfolding apply_from
  apply_masked_wire props mask payload row = apply_from props mask 0 payload row
