-- ===== src/Auth/Window/Bits.antt =====
-- Reading single bits after a shift and after a bit is set.
use orbitnet.Base.{
  ℕ, zero, suc, ◌-◌, ◌≤◌, ◌<◌, ◌≡◌, refl, ◌∙◌, Bool, true, false, List, [], ◌∷◌, ◌++◌, ltb,
  if◌then◌else◌, arith, get_or, take, replicate, length, length-set, get_or-set, length-append,
  ◌==◌, Bool-cases, inl, inr, get_or-replicate,
}
use orbitnet.Auth.Window.{shl, or_bit}

get_or-take :
    (n i : ℕ) (bits : List Bool) → i < n → get_or (take n bits) i false ≡ get_or bits i false
get_or-take zero i bits h = ground arith
get_or-take (suc n) i [] h = refl
get_or-take (suc n) zero (b ∷ bits) h = refl
get_or-take (suc n) (suc i) (b ∷ bits) h = get_or-take n i bits (omega arith)

get_or-shifted :
    (shift i : ℕ) (bits : List Bool)
    → get_or (replicate shift false ++ bits) i false
      ≡ (if ltb i shift then false else get_or bits (i - shift) false)
get_or-shifted zero i bits =
    let none_below : ltb i 0 ≡ false = ground arith in
    let same : i - 0 ≡ i = omega arith in rw (none_below, same) refl
get_or-shifted (suc shift) zero bits = ground arith
get_or-shifted (suc shift) (suc i) bits =
    let below : ltb (suc i) (suc shift) ≡ ltb i shift = ground arith in
    let same : suc i - suc shift ≡ i - shift = omega arith in
    rw (below, same) (get_or-shifted shift i bits)

length-take_all : (n : ℕ) (bits : List Bool) → n ≤ length bits → length (take n bits) ≡ n
length-take_all zero bits h = refl
length-take_all (suc n) [] h = ground arith
length-take_all (suc n) (b ∷ bits) h = omega (arith, length-take_all n bits (omega arith))

pub length-shl : (bits : List Bool) (shift : ℕ) → length bits ≡ 64 → length (shl bits shift) ≡ 64
unfolding shl
length-shl bits shift h = elim (Bool-cases (ltb shift 64)) [
  | inl small ↦
      rw (small, shl)
        (length-take_all 64 (replicate shift false ++ bits)
          (omega (arith, h, length-append (replicate shift false) bits)))
  | inr big ↦ rw (big, shl) refl
]

-- Bit `i` after a shift to the left, of the 64 that there are.
pub get_or-shl :
    (bits : List Bool) (shift i : ℕ)
    → i < 64
    → get_or (shl bits shift) i false
      ≡ (if ltb i shift then false else get_or bits (i - shift) false)
unfolding shl
get_or-shl bits shift i h = elim (Bool-cases (ltb shift 64)) [
  | inl small ↦
      rw (small, shl)
        (get_or-take 64 i (replicate shift false ++ bits) h ∙ get_or-shifted shift i bits)
  | inr big ↦
      let below : ltb i shift ≡ true = ground arith in
      rw (big, below, shl) (get_or-replicate 64 i false)
]

pub length-or_bit : (bits : List Bool) (bit : ℕ) → length (or_bit bits bit) ≡ length bits
unfolding or_bit
length-or_bit bits bit = elim (Bool-cases (ltb bit 64)) [
  | inl small ↦ rw (small, or_bit) (length-set bits bit true)
  | inr big ↦ rw (big, or_bit) refl
]

pub get_or-or_bit :
    (bits : List Bool) (bit i : ℕ)
    → length bits ≡ 64
    → i < 64
    → get_or (or_bit bits bit) i false ≡ (if bit == i then true else get_or bits i false)
unfolding or_bit
get_or-or_bit bits bit i size h = elim (Bool-cases (ltb bit 64)) [
  | inl small ↦ rw (small, or_bit) (get_or-set bits bit i true false (ground arith))
  | inr big ↦ let other : (bit == i) ≡ false = ground arith in rw (big, other, or_bit) refl
]
