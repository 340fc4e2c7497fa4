-- ===== src/Quant/Settle.antt =====
-- `canonicalize_value` reaches a fixed point of decoding after encoding.
use orbitnet.Base.{
  ℕ, suc, ◌*◌, ◌/◌, ◌%◌, ◌^◌, ◌<◌, ◌≡◌, ◌≢◌, refl, sym, ◌∙◌, ap, subst, true, false, Bool-cases,
  List, [], ◌∷◌, map, ltb, inl, inr, length, take, length-map, arith, All, take_append_at,
}
use mathlib.Core.List.{append-nil}
use orbitnet.Base.Rows.{eqb_bytes, eqb_bytes_self}
use orbitnet.Wire.Bytes.{Bytes, le_bytes, le_value}
use orbitnet.Wire.Bytes.Laws.{le_value-le_bytes}
use orbitnet.Schema.{
  PropKind, bool, i32, i64, f32, f64, vec3, quat, vec2, basis, transform, QuantKind, ss3, half,
  stride, valid_for,
}
use orbitnet.Quant.Half.{f32_to_f16_bits, f16_bits_to_f32}
use orbitnet.Quant.Half.Laws.{f32_to_f16_bits_small, f16_small, f16_trip}
use orbitnet.Quant.Ss3.{Float}
use orbitnet.Quant.{
  wire_stride, floats, words, le_all, encode_halves, decode_halves, encode_prop, decode_value,
  decode_prop, settle, canonicalize_value,
}
use orbitnet.Quant.Sizes.{length-floats, length-le_all, length-encode_prop}
use orbitnet.Quant.Delta.{IsCanonical, nothing_left}

abbrev down : List ℕ → List ℕ
down vs = map (λ v. f32_to_f16_bits v) vs

abbrev up : List ℕ → List ℕ
up hs = map (λ h. f16_bits_to_f32 h) hs

words-le_all : (hs : List ℕ) → All (λ h. h < 2 ^ 16) hs → words (le_all 2 hs) ≡ hs
unfolding words le_all le_bytes
words-le_all [] all = refl
words-le_all (h ∷ hs) all =
    let head : le_value (h % 256 ∷ h / 256 % 256 ∷ []) ≡ h = two_bytes h all.0 in
    λ i. head i ∷ words-le_all hs all.1 i
  where
    two_bytes : (h : ℕ) → h < 2 ^ 16 → le_value (h % 256 ∷ h / 256 % 256 ∷ []) ≡ h
    two_bytes h small = le_value-le_bytes 2 h (omega (arith, small))

floats-le_all : (vs : List ℕ) → All (λ v. v < 2 ^ 32) vs → floats (le_all 4 vs) ≡ vs
unfolding floats le_all le_bytes
floats-le_all [] all = refl
floats-le_all (v ∷ vs) all =
    λ i. le_value-le_bytes 4 v (omega (arith, all.0)) i ∷ floats-le_all vs all.1 i

down_small : (vs : List ℕ) → All (λ h. h < 2 ^ 16) (down vs)
down_small [] = tt
down_small (v ∷ vs) = ((f32_to_f16_bits_small v).0, down_small vs)

up_small : (hs : List ℕ) → All (λ h. h < 2 ^ 16) hs → All (λ v. v < 2 ^ 32) (up hs)
up_small [] all = tt
up_small (h ∷ hs) all = (f16_small h all.0, up_small hs all.1)

down-up-down : (vs : List ℕ) → down (up (down vs)) ≡ down vs
down-up-down [] = refl
down-up-down (v ∷ vs) = λ i. f16_trip v i ∷ down-up-down vs i

-- One round trip of a run of floats, after which the wire stays as it is.
round : Bytes → Bytes
round native = decode_halves (encode_halves native)

encode_halves-round : (native : Bytes) → encode_halves (round native) ≡ encode_halves native
unfolding round encode_halves decode_halves
encode_halves-round native =
    let hs = down (floats native) in
    let small = down_small (floats native) in
    ap (λ ws. le_all 2 (down (floats (le_all 4 (up ws))))) (words-le_all hs small)
    ∙ ap (λ vs. le_all 2 (down vs)) (floats-le_all (up hs) (up_small hs small))
    ∙ ap (le_all 2) (down-up-down (floats native))

length-round : (native : Bytes) → length (round native) ≡ 4 * (length native / 4)
unfolding round encode_halves decode_halves
length-round native =
    let hs = down (floats native) in
    ap (λ ws. length (le_all 4 (up ws))) (words-le_all hs (down_small (floats native)))
    ∙ omega (
      arith,
      length-le_all 4 (up hs),
      length-map (λ h. f16_bits_to_f32 h) hs,
      length-map (λ v. f32_to_f16_bits v) (floats native),
      length-floats native,
    )

module _ (f : Float) where
  -- The kinds that may be halved go through `encode_halves` and `decode_halves`.
  record Halves (kind : PropKind) : Type 0 where
    encodes : (native : Bytes) → encode_prop f kind half native ≡ encode_halves native
    decodes : (wire : Bytes) → decode_value f kind half wire ≡ decode_halves wire
    lanes : 4 * (stride kind / 4) ≡ stride kind

  halves : (kind : PropKind) → valid_for half kind ≡ true → Halves kind
  unfolding valid_for encode_prop decode_value stride
  halves vec3 v = record { encodes = λ n. refl; decodes = λ w. refl; lanes = omega arith }
  halves vec2 v = record { encodes = λ n. refl; decodes = λ w. refl; lanes = omega arith }
  halves f32 v = record { encodes = λ n. refl; decodes = λ w. refl; lanes = omega arith }
  halves bool v = cc
  halves i32 v = cc
  halves i64 v = cc
  halves f64 v = cc
  halves quat v = cc
  halves basis v = cc
  halves transform v = cc

  -- One pass of the loop.
  pass :
      (kind : PropKind) (native : Bytes)
      → Halves kind
      → length native ≡ stride kind
      → (decode_prop f kind half (encode_prop f kind half native) native).1 ≡ round native
  unfolding decode_prop round
  pass kind native h size =
      let wire = encode_prop f kind half native in
      let width = length-encode_prop f kind half native size in
      let enough : ltb (length wire) (wire_stride kind half) ≡ false = ground (arith, width) in
      let whole : take (wire_stride kind half) wire ≡ wire =
        ap (take (wire_stride kind half)) (sym (append-nil wire))
        ∙ take_append_at (wire_stride kind half) wire [] (sym width) in
      let value : decode_value f kind half (take (wire_stride kind half) wire) ≡ round native =
        ap (decode_value f kind half) whole
        ∙ h.decodes wire
        ∙ ap decode_halves (h.encodes native) in
      let left : length native ≡ length (round native) =
        omega (arith, length-round native, size, h.lanes) in
      rw (enough, value) (nothing_left (round native) native left)

  settle-half :
      (n : ℕ) (kind : PropKind) (native : Bytes)
      → Halves kind
      → length native ≡ stride kind
      → settle f (suc (suc n)) kind half native ≡ round native
  unfolding settle round words
  settle-half n kind native h size =
      let first = pass kind native h size in
      let size' : length (round native) ≡ stride kind =
        omega (arith, length-round native, size, h.lanes) in
      let again = pass kind (round native) h size' in
      let still : round (round native) ≡ round native =
        ap decode_halves (encode_halves-round native) in
      let settled = again ∙ still in
      rw (first, settled, eqb_bytes_self (round native))
        (elim (Bool-cases (eqb_bytes (round native) native)) [
          | inl same ↦ rw same refl
          | inr other ↦ rw other refl
        ])

  lossless : (kind : PropKind) (native : Bytes) → IsCanonical f kind QuantKind.none native
  unfolding encode_prop decode_value
  lossless bool native = refl
  lossless i32 native = refl
  lossless i64 native = refl
  lossless f32 native = refl
  lossless f64 native = refl
  lossless vec3 native = refl
  lossless quat native = refl
  lossless vec2 native = refl
  lossless basis native = refl
  lossless transform native = refl

  -- What the loop leaves of a halved property is canonical.
  round-IsCanonical :
      (kind : PropKind) (native : Bytes) → Halves kind → IsCanonical f kind half (round native)
  unfolding round
  round-IsCanonical kind native h =
      h.decodes (encode_prop f kind half (round native))
      ∙ ap decode_halves (h.encodes (round native))
      ∙ ap decode_halves (encode_halves-round native)

  -- A property that is captured without a quantizer or as halves holds exactly what a peer will
  -- reconstruct from the wire, in the same number of bytes, whatever bits are captured: after
  -- `canonicalize_value` of a native value of its kind's stride, decoding what is encoded gives the
  -- value back.
  pub canonicalize_value-IsCanonical :
      (kind : PropKind) (quant : QuantKind) (native : Bytes)
      → valid_for quant kind ≡ true
      → quant ≢ ss3
      → length native ≡ stride kind
      → IsCanonical f kind quant (canonicalize_value f kind quant native)
        × (length (canonicalize_value f kind quant native) ≡ stride kind)
  unfolding canonicalize_value
  canonicalize_value-IsCanonical kind QuantKind.none native v ne size = (lossless kind native, size)
  canonicalize_value-IsCanonical kind ss3 native v ne size = absurd (ne refl)
  canonicalize_value-IsCanonical kind half native v ne size =
      let h = halves kind v in
      let settled = settle-half 6 kind native h size in
      (
        subst (IsCanonical f kind half) (sym settled) (round-IsCanonical kind native h),
        ap (λ (b : Bytes). length b) settled ∙ omega (arith, length-round native, size, h.lanes),
      )
