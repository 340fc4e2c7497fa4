-- ===== src/Quant/Sizes.antt =====
-- How many bytes a property takes on the wire and in a row.
use orbitnet.Base.{
  ℕ, zero, suc, ◌+◌, ◌*◌, ◌/◌, ◌≡◌, ◌||◌, Bool, refl, true, false, Bool-cases, inl, inr, List, [],
  ◌∷◌, map, if◌then◌else◌, length, length-append, length-map, arith,
}
use orbitnet.Base.Rows.{eqb_bytes}
use orbitnet.Wire.Bytes.{Bytes, le_bytes}
use orbitnet.Wire.Bytes.Laws.{length-le_bytes}
use orbitnet.Schema.{
  PropKind, bool, i32, i64, f32, f64, vec3, quat, vec2, basis, transform, QuantKind, ss3, half,
  stride,
}
use orbitnet.Quant.Half.{f32_to_f16_bits}
use orbitnet.Quant.Ss3.{
  Float, pack_ss3_dropping, respack, least_on_walk, quat_to_ss3, pack_stable, ss3_skip_gap,
  basis_to_quat, ss3_to_quat, dropped_index, lt_bytes, least_bytes, largest_separation,
}
use orbitnet.Quant.{wire_stride, floats, le_all, encode_halves, encode_prop}

pub length-floats : (bs : Bytes) → length (floats bs) ≡ length bs / 4
unfolding floats
length-floats [] = omega arith
length-floats (a ∷ []) = omega arith
length-floats (a ∷ b ∷ []) = omega arith
length-floats (a ∷ b ∷ c ∷ []) = omega arith
length-floats (a ∷ b ∷ c ∷ d ∷ rest) = omega (arith, length-floats rest)

pub length-le_all : (w : ℕ) (vs : List ℕ) → length (le_all w vs) ≡ w * length vs
unfolding le_all
length-le_all w [] = omega arith
length-le_all w (v ∷ vs) =
    let step : w * suc (length vs) ≡ w + w * length vs = omega arith in
    omega (
      arith,
      length-append (le_bytes w v) (le_all w vs),
      length-le_bytes w v,
      length-le_all w vs,
      step,
    )

length-encode_halves : (bs : Bytes) → length (encode_halves bs) ≡ 2 * (length bs / 4)
unfolding encode_halves
length-encode_halves bs = omega (
  arith,
  length-le_all 2 (map (λ v. f32_to_f16_bits v) (floats bs)),
  length-map (λ v. f32_to_f16_bits v) (floats bs),
  length-floats bs,
)

module _ (f : Float) where
  length-pack_ss3_dropping : (q : List ℕ) (largest : ℕ) → length (pack_ss3_dropping f q largest) ≡ 6
  unfolding pack_ss3_dropping le_bytes
  length-pack_ss3_dropping q largest = refl

  length-respack : (packed : Bytes) → length (respack f packed) ≡ 6
  unfolding respack
  length-respack packed =
      length-pack_ss3_dropping (ss3_to_quat f packed) (dropped_index f (ss3_to_quat f packed))

  length-least_bytes : (a b : Bytes) → length a ≡ 6 → length b ≡ 6 → length (least_bytes a b) ≡ 6
  length-least_bytes a b ha hb = elim (Bool-cases (lt_bytes b a)) [
    | inl less ↦ rw less hb
    | inr more ↦ rw more ha
  ]

  length-least_on_walk :
      (n : ℕ) (packed walk best : Bytes)
      → length best ≡ 6
      → length (least_on_walk f n packed walk best) ≡ 6
  unfolding least_on_walk
  length-least_on_walk zero packed walk best h = h
  length-least_on_walk (suc n) packed walk best h =
      let next = respack f walk in
      let rest =
        length-least_on_walk n packed next (least_bytes best next)
          (length-least_bytes best next h (length-respack walk)) in
      elim (Bool-cases (eqb_bytes next walk || eqb_bytes next packed)) [
        | inl stop ↦ rw stop h
        | inr more ↦ rw more rest
      ]

  -- Either way of packing.
  length_either :
      (b c : Bool) (xs ys : Bytes)
      → length xs ≡ 6
      → length ys ≡ 6
      → length (if b then xs else if c then xs else ys) ≡ 6
  length_either true c xs ys hx hy = hx
  length_either false true xs ys hx hy = hx
  length_either false false xs ys hx hy = hy

  length-pack_stable : (q : List ℕ) → length (pack_stable f q) ≡ 6
  unfolding pack_stable
  length-pack_stable q =
      let packed = pack_ss3_dropping f q (dropped_index f q) in
      let size = length-pack_ss3_dropping q (dropped_index f q) in
      let once = respack f packed in
      length_either (f.le (ss3_skip_gap f) (largest_separation f q (dropped_index f q)))
        (eqb_bytes once packed) packed (least_on_walk f 6 packed once (least_bytes packed once))
        size
        (length-least_on_walk 6 packed once (least_bytes packed once)
          (length-least_bytes packed once size (length-respack packed)))

  length-quat_to_ss3 : (q : List ℕ) → length (quat_to_ss3 f q) ≡ 6
  unfolding quat_to_ss3
  length-quat_to_ss3 q = length-pack_stable _

  -- A property of its kind's stride takes its wire stride.
  pub length-encode_prop :
      (kind : PropKind) (quant : QuantKind) (native : Bytes)
      → length native ≡ stride kind
      → length (encode_prop f kind quant native) ≡ wire_stride kind quant
  unfolding encode_prop wire_stride stride
  length-encode_prop quat ss3 native h = length-quat_to_ss3 (floats native)
  length-encode_prop basis ss3 native h = length-quat_to_ss3 (basis_to_quat f (floats native))
  length-encode_prop vec3 half native h = omega (arith, length-encode_halves native, h)
  length-encode_prop vec2 half native h = omega (arith, length-encode_halves native, h)
  length-encode_prop f32 half native h = omega (arith, length-encode_halves native, h)
  length-encode_prop quat QuantKind.none native h = h
  length-encode_prop quat half native h = h
  length-encode_prop basis QuantKind.none native h = h
  length-encode_prop basis half native h = h
  length-encode_prop vec3 QuantKind.none native h = h
  length-encode_prop vec3 ss3 native h = h
  length-encode_prop vec2 QuantKind.none native h = h
  length-encode_prop vec2 ss3 native h = h
  length-encode_prop f32 QuantKind.none native h = h
  length-encode_prop f32 ss3 native h = h
  length-encode_prop bool quant native h = h
  length-encode_prop i32 quant native h = h
  length-encode_prop i64 quant native h = h
  length-encode_prop f64 quant native h = h
  length-encode_prop transform quant native h = h
