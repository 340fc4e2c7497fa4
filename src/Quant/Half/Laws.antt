-- ===== src/Quant/Half/Laws.antt =====
-- Binary16 and back: nothing but poison is lost, and poison does not come out.
use orbitnet.Base.{
  ℕ, ◌+◌, ◌-◌, ◌*◌, ◌/◌, ◌%◌, ◌^◌, ◌≤◌, ◌<◌, ◌≡◌, refl, ◌∙◌, true, leb, ◌==◌, if◌then◌else◌, arith,
  Bool-cases, inl, inr, ltb_cases, lt→ltb,
}
use native.Mathlib.Nat.{pow-le-pow_right, mul-le-mul_left, div-add-mod}
use orbitnet.Quant.Half.{
  is_finite, clamped_magnitude, rounded, subnormal_half, normal_half, magnitude_half,
  f32_to_f16_bits, f16_bits_to_f32,
}
use orbitnet.Quant.Half.Table.{settled, table_at}

rounded-le : (whole rest span : ℕ) → rounded whole rest span ≤ whole + 1
rounded-le whole rest span = ground arith

quotient_small : (full span : ℕ) → full < 2 ^ 24 → 2 ^ 14 ≤ span → full / span < 2 ^ 10
quotient_small full span h wide = elim (ltb_cases (full / span) (2 ^ 10)) [
  | inl (below, _) ↦ below
  | inr (above, _) ↦
      let most = div-add-mod full span in
      let scaled : span * 2 ^ 10 ≤ span * (full / span) = mul-le-mul_left span above in
      absurd (omega (arith, h, wide, most, scaled))
]

subnormal_half_small :
    (exp mantissa : ℕ) → exp < 113 → mantissa < 2 ^ 23 → subnormal_half exp mantissa ≤ 2 ^ 10
subnormal_half_small exp mantissa he hm =
    let span = 2 ^ (126 - exp) in
    let wide : 2 ^ 14 ≤ span =
      pow-le-pow_right (omega arith) {i = 14} {j = 126 - exp} (omega (arith, he)) in
    let small = quotient_small (mantissa + 2 ^ 23) span (omega (arith, hm)) wide in
    let up = rounded-le ((mantissa + 2 ^ 23) / span) ((mantissa + 2 ^ 23) % span) span in
    omega (arith, small, up)

normal_half_small : (exp mantissa : ℕ) → mantissa < 2 ^ 23 → normal_half exp mantissa < 31 * 2 ^ 10
normal_half_small exp mantissa hm =
    let up = rounded-le (mantissa / 2 ^ 13) (mantissa % 2 ^ 13) (2 ^ 13) in
    go (rounded (mantissa / 2 ^ 13) (mantissa % 2 ^ 13) (2 ^ 13)) (omega (arith, up, hm))
  where
    go :
        (half_man : ℕ)
        → half_man ≤ 1024
        → (if leb 31 (if half_man == 1024 then exp - 112 + 1 else exp - 112)
            then 0x7bff
            else (if half_man == 1024 then exp - 112 + 1 else exp - 112) * 2 ^ 10
              + (if half_man == 1024 then 0 else half_man))
          < 31 * 2 ^ 10
    go half_man h = ground arith

magnitude_half_small : (m : ℕ) → magnitude_half m < 31 * 2 ^ 10
magnitude_half_small m =
    let exp = m / 2 ^ 23 in
    let mantissa = m % 2 ^ 23 in
    elim (ltb_cases exp 103) [
      | inl (_, zero) ↦ rw zero (omega arith)
      | inr (_, some) ↦ elim (ltb_cases exp 113) [
        | inl (low, test) ↦
            let small = subnormal_half_small exp mantissa low (omega arith) in
            rw (some, test) (omega (arith, small))
        | inr (_, test) ↦ rw (some, test) (normal_half_small exp mantissa (omega arith))
      ]
    ]

-- An encoded float is a finite binary16.
pub f32_to_f16_bits_small :
    (v : ℕ) → (f32_to_f16_bits v < 2 ^ 16) × (settled (f32_to_f16_bits v) ≡ f32_to_f16_bits v)
unfolding f32_to_f16_bits
f32_to_f16_bits_small v = elim (Bool-cases (is_finite v)) [
  | inl finite ↦ rw finite (
      field (v / 2 ^ 31 % 2) (magnitude_half (clamped_magnitude v)) (omega arith)
        (magnitude_half_small (clamped_magnitude v)))
  | inr poison ↦ rw poison (omega arith, refl)
]
  where
    field :
        (sign m : ℕ)
        → sign < 2
        → m < 31 * 2 ^ 10
        → (sign * 2 ^ 15 + m < 2 ^ 16) × (settled (sign * 2 ^ 15 + m) ≡ sign * 2 ^ 15 + m)
    field sign m hs hm =
        let low : (sign * 2 ^ 15 + m) / 2 ^ 10 % 32 < 31 = omega (arith, hs, hm) in
        (omega (arith, hs, hm), rw (lt→ltb _ _ low) refl)

-- What comes off the wire is finite, and goes back to the same bits unless it was poison.
pub f16-finite : (h : ℕ) → h < 2 ^ 16 → is_finite (f16_bits_to_f32 h) ≡ true
f16-finite h small = (table_at h small).0

pub f16-settled : (h : ℕ) → h < 2 ^ 16 → f32_to_f16_bits (f16_bits_to_f32 h) ≡ settled h
f16-settled h small = (table_at h small).1

pub f16_small : (h : ℕ) → h < 2 ^ 16 → f16_bits_to_f32 h < 2 ^ 32
f16_small h small = (table_at h small).2

-- One round settles any float.
pub f16_trip : (v : ℕ) → f32_to_f16_bits (f16_bits_to_f32 (f32_to_f16_bits v)) ≡ f32_to_f16_bits v
f16_trip v =
    let (small, kept) = f32_to_f16_bits_small v in f16-settled (f32_to_f16_bits v) small ∙ kept
