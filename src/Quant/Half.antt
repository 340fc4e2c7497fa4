-- ===== src/Quant/Half.antt =====
-- `f32_to_f16_bits` and `f16_bits_to_f32` of quant.rs. A float is the number of its bits, in which
-- the code reads the sign, the exponent and the mantissa; bit fields that do not meet are summed.
pub mod Table
pub mod Laws
use orbitnet.Base.{
  ℕ, zero, suc, ◌+◌, ◌-◌, ◌*◌, ◌/◌, ◌%◌, ◌^◌, Bool, true, false, ◌&&◌, ◌||◌, ltb, leb, ◌==◌,
  if◌then◌else◌,
}

-- `f32::is_finite`: the exponent is not all ones.
abbrev pub is_finite : ℕ → Bool
is_finite bits = ltb (bits / 2 ^ 23 % 256) 255

-- The sign bit at `2 ^ 15`, and `clamp(-65504.0, 65504.0)`, which keeps the sign.
abbrev half_sign : ℕ → ℕ
half_sign bits = bits / 2 ^ 31 % 2 * 2 ^ 15

abbrev clamped_magnitude : ℕ → ℕ
clamped_magnitude bits = if ltb 0x477fe000 (bits % 2 ^ 31) then 0x477fe000 else bits % 2 ^ 31

-- Round to nearest, ties to even: `whole` and what was cut off, of `span`.
abbrev rounded : ℕ → ℕ → ℕ → ℕ
rounded whole rest span =
    if ltb (span / 2) rest || (rest == span / 2 && whole % 2 == 1) then whole + 1 else whole

-- A magnitude below the normal range of binary16.
abbrev subnormal_half : ℕ → ℕ → ℕ
subnormal_half exp mantissa =
    let span = 2 ^ (126 - exp) in
    let full = mantissa + 2 ^ 23 in rounded (full / span) (full % span) span

-- One in the normal range; a mantissa that rounds up to 0x400 carries into the exponent.
abbrev normal_half : ℕ → ℕ → ℕ
normal_half exp mantissa =
    let half_man = rounded (mantissa / 2 ^ 13) (mantissa % 2 ^ 13) (2 ^ 13) in
    let half_exp = if half_man == 1024 then exp - 112 + 1 else exp - 112 in
    let kept = if half_man == 1024 then 0 else half_man in
    if leb 31 half_exp then 0x7bff else half_exp * 2 ^ 10 + kept

abbrev magnitude_half : ℕ → ℕ
magnitude_half magnitude =
    let exp = magnitude / 2 ^ 23 in
    let mantissa = magnitude % 2 ^ 23 in
    if ltb exp 103
    then 0
    else if ltb exp 113
    then subnormal_half exp mantissa
    else normal_half exp mantissa

unfoldable pub f32_to_f16_bits : ℕ → ℕ
f32_to_f16_bits value =
    if is_finite value then half_sign value + magnitude_half (clamped_magnitude value) else 0

-- The highest set bit of a number below `2 ^ (n + 1)`.
unfoldable pub top_bit : ℕ → ℕ → ℕ
top_bit zero v = 0
top_bit (suc n) v = let lower = top_bit n v in if leb (2 ^ suc n) v then suc n else lower

-- `man * 2^-24`, exactly.
abbrev scaled_down : ℕ → ℕ
scaled_down man =
    let k = top_bit 9 man in
    if man == 0 then 0 else (k + 103) * 2 ^ 23 + (man - 2 ^ k) * 2 ^ (23 - k)

-- `(1.0 + man / 1024.0) * 2^(exp - 15)`, exactly, in the third case.
unfoldable pub f16_bits_to_f32 : ℕ → ℕ
unfolding top_bit
f16_bits_to_f32 bits =
    let sign = bits / 2 ^ 15 % 2 * 2 ^ 31 in
    let exp = bits / 2 ^ 10 % 32 in
    let man = bits % 2 ^ 10 in
    if exp == 0
    then sign + scaled_down man
    else if exp == 31
    then 0
    else sign + (exp + 112) * 2 ^ 23 + man * 2 ^ 13
