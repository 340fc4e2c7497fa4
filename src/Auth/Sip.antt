-- ===== src/Auth/Sip.antt =====
-- `SipHasher` of auth.rs, SipHash-2-4 over messages that arrive in pieces.
pub mod Stream
pub mod Words
pub mod Pieces
pub mod Words64
use orbitnet.Base.{
  ℕ, zero, suc, ◌+◌, ◌-◌, ◌*◌, ◌/◌, ◌%◌, ◌^◌, min, bit_xor, Bool, true, false, List, [], ◌∷◌, ◌++◌,
  ltb, ◌==◌, if◌then◌else◌, length, take, drop, Option, none, some,
}
use orbitnet.Wire.Bytes.{Bytes, le_value, le_bytes}

pub record SipHasher : Type 0 where
  pub v0 : ℕ
  pub v1 : ℕ
  pub v2 : ℕ
  pub v3 : ℕ
  pub tail : ℕ
  pub ntail : ℕ
  pub length : ℕ

abbrev pub wrapping_add : ℕ → ℕ → ℕ
wrapping_add a b = (a + b) % 2 ^ 64

abbrev pub rotate_left : ℕ → ℕ → ℕ
rotate_left a r = a * 2 ^ r % 2 ^ 64 + a / 2 ^ (64 - r)

unfoldable pub new : Bytes → SipHasher
new key =
    let k0 = le_value (take 8 key) in
    let k1 = le_value (drop 8 key) in
    record {
      v0 = bit_xor 8317987319222330741 k0;
      v1 = bit_xor 7237128888997146477 k1;
      v2 = bit_xor 7816392313619706465 k0;
      v3 = bit_xor 8387220255154660723 k1;
      tail = 0;
      ntail = 0;
      length = 0;
    }

unfoldable pub round : SipHasher → SipHasher
round h =
    let a0 = wrapping_add h.v0 h.v1 in
    let a1 = bit_xor (rotate_left h.v1 13) a0 in
    let b0 = rotate_left a0 32 in
    let a2 = wrapping_add h.v2 h.v3 in
    let a3 = bit_xor (rotate_left h.v3 16) a2 in
    let c0 = wrapping_add b0 a3 in
    let c3 = bit_xor (rotate_left a3 21) c0 in
    let c2 = wrapping_add a2 a1 in
    let c1 = bit_xor (rotate_left a1 17) c2 in
    record h { v0 = c0; v1 = c1; v2 = rotate_left c2 32; v3 = c3 }

unfoldable pub absorb : SipHasher → ℕ → SipHasher
absorb h word =
    let r = round (round (record h { v3 = bit_xor h.v3 word })) in
    record r { v0 = bit_xor r.v0 word }

-- Bytes into free places of the tail: `tail |= byte << (8 * (ntail + index))`.
unfoldable pub fill : SipHasher → Bytes → SipHasher
fill h bs = record h { tail = h.tail + le_value bs * 256 ^ h.ntail; ntail = h.ntail + length bs }

unfoldable pub chunks : ℕ → SipHasher → Bytes → SipHasher
chunks zero h bs = h
chunks (suc n) h bs = chunks n (absorb h (le_value (take 8 bs))) (drop 8 bs)

-- The whole words of `rest`, and the bytes behind them, on an empty tail.
unfoldable pub blocks : SipHasher → Bytes → SipHasher
unfolding chunks fill
blocks h rest = fill (chunks (length rest / 8) h rest) (drop (8 * (length rest / 8)) rest)

unfoldable pub drained : SipHasher → SipHasher
drained h = absorb (record h { tail = 0; ntail = 0 }) h.tail

abbrev pub counted : SipHasher → Bytes → SipHasher
counted h bs = record h { length = (h.length + length bs) % 2 ^ 64 }

unfoldable pub write : SipHasher → Bytes → SipHasher
unfolding fill blocks drained
write h bs =
    let n = min (8 - h.ntail) (length bs) in
    let filled = fill (counted h bs) (take n bs) in
    if h.ntail == 0
    then blocks (counted h bs) bs
    else if ltb filled.ntail 8
    then filled
    else blocks (drained filled) (drop n bs)

unfoldable pub finish : SipHasher → ℕ
finish h =
    let a = absorb h (h.tail + h.length % 256 * 2 ^ 56) in
    let r = round (round (round (round (record a { v2 = bit_xor a.v2 255 })))) in
    bit_xor (bit_xor r.v0 r.v1) (bit_xor r.v2 r.v3)

unfoldable pub siphash24 : Bytes → Bytes → ℕ
siphash24 key msg = finish (write (new key) msg)
