-- ===== src/Wire/Bytes/Bounds.antt =====
-- What a decoded number can be, whatever the bytes are.
use orbitnet.Base.{
  ℕ, zero, suc, ◌+◌, ◌*◌, ◌/◌, ◌%◌, ◌^◌, ◌≤◌, ◌<◌, ◌≡◌, refl, ap, Bool, true, false, [], ◌∷◌, ltb,
  leb, length, arith, inl, inr, ◌==◌, ◌||◌, ◌&&◌, Bool-cases,
}
use orbitnet.Base.Int.{ℤ}
use orbitnet.Wire.Bytes.Laws.{Reads}
use orbitnet.Wire.Bytes.Varint.{IsI64, Reads-varint, Reads-zigzag, seven_bits, power_mono}
use orbitnet.Wire.Bytes.{
  Bytes, Outcome, got, fail, varint_from, varint, varint_bytes, zigzag, zigzag_code,
}

-- A bound on what a read answers, and that it took at least one byte.
abbrev pub Bounded : ℕ → Bytes → Outcome ℕ → Type 0
Bounded bound buf (got v rest) = (v < bound) × (length rest < length buf)
Bounded bound buf (fail e) = Unit {0}

Bounded-longer :
    (bound byte : ℕ) (buf : Bytes) (o : Outcome ℕ)
    → Bounded bound buf o
    → Bounded bound (byte ∷ buf) o
Bounded-longer bound byte buf (got v rest) h = (h.0, omega (arith, h.1))
Bounded-longer bound byte buf (fail e) h = tt

past_the_end :
    (buf : Bytes) (result shift : ℕ)
    → 64 ≤ shift
    → Bounded (2 ^ 64) buf (varint_from result shift buf)
unfolding varint_from
past_the_end [] result shift h = tt
past_the_end (byte ∷ rest) result shift h =
    let over : leb 64 shift ≡ true = ground arith in rw over tt

-- The two tests of a round.
abbrev pub overflows : ℕ → ℕ → Bool
overflows shift payload = leb 64 shift || (shift == 63 && ltb 1 payload)

round-Bounded :
    (byte : ℕ) (rest : Bytes) (result shift : ℕ)
    → (overflows shift (byte % 128) ≡ false → result + byte % 128 * 2 ^ shift < 2 ^ 64)
    → (overflows shift (byte % 128) ≡ false
        → Bounded (2 ^ 64) rest (varint_from (result + byte % 128 * 2 ^ shift) (shift + 7) rest))
    → Bounded (2 ^ 64) (byte ∷ rest) (varint_from result shift (byte ∷ rest))
unfolding varint_from
round-Bounded byte rest result shift small later =
    let next = result + byte % 128 * 2 ^ shift in
    elim (Bool-cases (overflows shift (byte % 128))) [
      | inl over ↦ rw over tt
      | inr fits ↦ elim (Bool-cases (byte / 128 % 2 == 0)) [
        | inl last ↦ rw (fits, last) (small fits, omega arith)
        | inr more ↦
            rw (fits, more)
              (Bounded-longer (2 ^ 64) byte rest (varint_from next (shift + 7) rest) (later fits))
      ]
    ]

-- Seven bits above the lowest `shift`.
below_next :
    (payload result shift : ℕ)
    → payload < 128
    → result < 2 ^ shift
    → result + payload * 2 ^ shift < 2 ^ (shift + 7)
below_next payload result shift p h =
    let scaled : payload * 2 ^ shift ≤ 127 * 2 ^ shift = grind arith in
    omega (arith, scaled, seven_bits shift)

-- The bits below `shift` are filled, and rounds are left for the rest.
varint_from-Bounded :
    (rounds : ℕ) (buf : Bytes) (result shift : ℕ)
    → shift + 7 * rounds ≡ 63
    → result < 2 ^ shift
    → Bounded (2 ^ 64) buf (varint_from result shift buf)
unfolding varint_from
varint_from-Bounded rounds [] result shift e h = tt
varint_from-Bounded zero (byte ∷ rest) result shift e h =
    let top : shift ≡ 63 = omega arith in
    let power : 2 ^ shift ≡ 2 ^ 63 = ap (λ (b : ℕ). 2 ^ b) top in
    round-Bounded byte rest result shift
      (λ fits.
        let bit : byte % 128 < 2 = ground arith in
        let scaled : byte % 128 * 2 ^ shift ≤ 1 * 2 ^ shift = grind arith in
        omega (arith, scaled, power))
      (λ fits. past_the_end rest (result + byte % 128 * 2 ^ shift) (shift + 7) (omega arith))
varint_from-Bounded (suc rounds) (byte ∷ rest) result shift e h =
    let next = below_next (byte % 128) result shift (omega arith) h in
    let width : shift + 7 + 7 * rounds ≡ 63 = omega arith in
    let power = power_mono (shift + 7) (7 * rounds) in
    round-Bounded byte rest result shift
      (λ fits. omega (arith, next, power, ap (λ (b : ℕ). 2 ^ b) width))
      (λ fits.
        varint_from-Bounded rounds rest (result + byte % 128 * 2 ^ shift) (shift + 7) width next)

-- Whatever the bytes are, a decoded varint is a u64, and its read takes at least one byte.
pub varint-Bounded : (buf : Bytes) → Bounded (2 ^ 64) buf (varint buf)
unfolding varint
varint-Bounded buf = varint_from-Bounded 9 buf 0 0 refl (omega arith)

-- Every u64 reads back from its varint and every i64 from its zigzag varint; and whatever the bytes
-- are, a decoded varint is a u64 and its read takes at least one byte.
pub varint_lem :
    (v : ℕ) (z : ℤ) (buf : Bytes)
    → v < 2 ^ 64
    → IsI64 z
    → Reads varint (varint_bytes v) v
      × Reads zigzag (varint_bytes (zigzag_code z)) z
      × Bounded (2 ^ 64) buf (varint buf)
varint_lem v z buf hv hz = (Reads-varint v hv, Reads-zigzag z hz, varint-Bounded buf)
