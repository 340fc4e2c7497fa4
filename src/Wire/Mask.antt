-- ===== src/Wire/Mask.antt =====
-- `bitmask` and `bitmask_into` of codec.rs: flags packed eight to a byte, the first the lowest bit.
use orbitnet.Base.{
  ℕ, zero, suc, ◌+◌, ◌*◌, ◌/◌, ◌%◌, ◌^◌, ◌≤◌, ◌<◌, ◌≡◌, refl, sym, ◌∙◌, ap, Bool, true, false, List,
  [], ◌∷◌, ◌==◌, not, length, drop, get_or, drop_add, arith, length-drop, length_zero, subst,
}
use orbitnet.Wire.Bytes.{Bytes, Reader, ◌>>=◌, pure, bytes}
use orbitnet.Wire.Bytes.Laws.{Reads, Reads-bytes, Reads-map}
use native.Mathlib.Nat.{div-div-eq-div-mul, zero-div}

abbrev bit_of : Bool → ℕ
bit_of true = 1
bit_of false = 0

-- The byte of the first `n` flags.
unfoldable pub mask_byte : ℕ → List Bool → ℕ
mask_byte zero bits = 0
mask_byte (suc n) [] = 0
mask_byte (suc n) (b ∷ bits) = bit_of b + 2 * mask_byte n bits

unfoldable pub mask_chunks : ℕ → List Bool → Bytes
unfolding mask_byte
mask_chunks zero bits = []
mask_chunks (suc n) bits = mask_byte 8 bits ∷ mask_chunks n (drop 8 bits)

-- `count.div_ceil(8)`.
abbrev pub mask_len : ℕ → ℕ
mask_len count = (count + 7) / 8

unfoldable pub bitmask : List Bool → Bytes
unfolding mask_chunks
bitmask bits = mask_chunks (mask_len (length bits)) bits

-- The flags `index..index + n` of the bytes.
unfoldable pub flags_from : ℕ → ℕ → Bytes → List Bool
flags_from zero index bs = []
flags_from (suc n) index bs =
    not (get_or bs (index / 8) 0 / 2 ^ (index % 8) % 2 == 0) ∷ flags_from n (index + 1) bs

unfoldable pub bitmask_into : ℕ → Reader (List Bool)
unfolding flags_from
bitmask_into count = bytes (mask_len count) >>= λ bs. pure (flags_from count 0 bs)

get_or-drop {ℓ} :
    {A : Type ℓ} (k : ℕ) (xs : List A) (j : ℕ) (d : A)
    → get_or (drop k xs) j d ≡ get_or xs (k + j) d
get_or-drop zero xs j d = ap (λ i. get_or xs i d) (omega arith)
get_or-drop (suc k) [] j d = refl
get_or-drop (suc k) (x ∷ xs) j d =
    let next : suc k + j ≡ suc (k + j) = omega arith in
    get_or-drop k xs j d ∙ sym (ap (λ i. get_or (x ∷ xs) i d) next)

half_power : (v j : ℕ) → v / 2 ^ suc j ≡ v / 2 / 2 ^ j
half_power v j =
    let power : 2 ^ suc j ≡ 2 * 2 ^ j = omega arith in
    ap (λ (p : ℕ). v / p) power ∙ sym (div-div-eq-div-mul v 2 (2 ^ j))

half_of : (b : Bool) (m : ℕ) → (bit_of b + 2 * m) / 2 ≡ m
half_of true m = omega arith
half_of false m = omega arith

-- A flag of a byte.
mask_byte-flag :
    (n j : ℕ) (bits : List Bool)
    → j < n
    → mask_byte n bits / 2 ^ j % 2 ≡ bit_of (get_or bits j false)
unfolding mask_byte
mask_byte-flag zero j bits h = absurd (omega (arith, h))
mask_byte-flag (suc n) j [] h = ap (λ (t : ℕ). t % 2) (zero-div (2 ^ j))
mask_byte-flag (suc n) zero (true ∷ bits) h = omega arith
mask_byte-flag (suc n) zero (false ∷ bits) h = omega arith
mask_byte-flag (suc n) (suc j) (b ∷ bits) h =
    let half = half_of b (mask_byte n bits) in
    ap (λ (t : ℕ). t % 2) (half_power (bit_of b + 2 * mask_byte n bits) j)
    ∙ ap (λ (t : ℕ). t / 2 ^ j % 2) half
    ∙ mask_byte-flag n j bits (omega (arith, h))

mask_chunks-byte :
    (k c : ℕ) (bits : List Bool)
    → c < k
    → get_or (mask_chunks k bits) c 0 ≡ mask_byte 8 (drop (8 * c) bits)
unfolding mask_chunks
mask_chunks-byte zero c bits h = absurd (omega (arith, h))
mask_chunks-byte (suc k) zero bits h = refl
mask_chunks-byte (suc k) (suc c) bits h =
    mask_chunks-byte k c (drop 8 bits) (omega (arith, h))
    ∙ ap (mask_byte 8) (drop_add 8 (8 * c) bits)
    ∙ ap (λ i. mask_byte 8 (drop i bits)) (eighth c)
  where
    eighth : (c : ℕ) → 8 + 8 * c ≡ 8 * suc c
    eighth c = omega arith

drop_step :
    (bits : List Bool) (i : ℕ)
    → i < length bits
    → drop i bits ≡ get_or bits i false ∷ drop (i + 1) bits
drop_step [] i h = absurd (omega (arith, h))
drop_step (b ∷ bits) zero h =
    let one : 0 + 1 ≡ suc zero = omega arith in sym (ap (λ k. b ∷ drop k (b ∷ bits)) one)
drop_step (b ∷ bits) (suc i) h =
    let next : suc i + 1 ≡ suc (i + 1) = omega arith in
    drop_step bits i (omega (arith, h))
    ∙ sym (ap (λ k. get_or bits i false ∷ drop k (b ∷ bits)) next)

flag_back : (b : Bool) → not (bit_of b == 0) ≡ b
flag_back true = refl
flag_back false = refl

-- A flag is found in its byte.
flag_at :
    (k i : ℕ) (bits : List Bool)
    → i / 8 < k
    → not (get_or (mask_chunks k bits) (i / 8) 0 / 2 ^ (i % 8) % 2 == 0) ≡ get_or bits i false
flag_at k i bits h =
    let place : 8 * (i / 8) + i % 8 ≡ i = omega arith in
    ap (λ (byte : ℕ). not (byte / 2 ^ (i % 8) % 2 == 0)) (mask_chunks-byte k (i / 8) bits h)
    ∙ ap (λ (flag : ℕ). not (flag == 0))
        (mask_byte-flag 8 (i % 8) (drop (8 * (i / 8)) bits) (omega arith))
    ∙ flag_back (get_or (drop (8 * (i / 8)) bits) (i % 8) false)
    ∙ get_or-drop (8 * (i / 8)) bits (i % 8) false
    ∙ ap (λ j. get_or bits j false) place

flags_from-chunks :
    (n i k : ℕ) (bits : List Bool)
    → i + n ≡ length bits
    → length bits ≤ 8 * k
    → flags_from n i (mask_chunks k bits) ≡ drop i bits
unfolding flags_from
flags_from-chunks zero i k bits e h = sym (all_gone bits i (omega (arith, e)))
  where
    all_gone : (bits : List Bool) (i : ℕ) → i ≡ length bits → drop i bits ≡ []
    all_gone bits i e =
        let left = length-drop i bits (omega (arith, e)) in
        length_zero (drop i bits) (omega (arith, left, e))
flags_from-chunks (suc n) i k bits e h =
    (λ d.
      flag_at k i bits (omega (arith, e, h)) d
      ∷ flags_from-chunks n (i + 1) k bits (omega (arith, e)) h d)
    ∙ sym (drop_step bits i (omega (arith, e)))

length-mask_chunks : (k : ℕ) (bits : List Bool) → length (mask_chunks k bits) ≡ k
unfolding mask_chunks
length-mask_chunks zero bits = refl
length-mask_chunks (suc k) bits = ap suc (length-mask_chunks k (drop 8 bits))

pub length-bitmask : (bits : List Bool) → length (bitmask bits) ≡ mask_len (length bits)
unfolding bitmask
length-bitmask bits = length-mask_chunks (mask_len (length bits)) bits

-- Every list of flags reads back from its mask.
pub Reads-bitmask : (bits : List Bool) → Reads (bitmask_into (length bits)) (bitmask bits) bits
unfolding bitmask bitmask_into
Reads-bitmask bits =
    let k = mask_len (length bits) in
    subst (λ out. Reads (bitmask_into (length bits)) (mask_chunks k bits) out)
      (flags_from-chunks (length bits) 0 k bits (omega arith) (omega arith))
      (Reads-map (bytes k) (λ bs. flags_from (length bits) 0 bs) (mask_chunks k bits)
        (mask_chunks k bits) (Reads-bytes k (mask_chunks k bits) (length-mask_chunks k bits)))
