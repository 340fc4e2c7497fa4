-- ===== src/Auth/Sip/Words64.antt =====
-- The words of the state stay within 64 bits, and so does a tag.
use orbitnet.Base.{
  ℕ, suc, ◌+◌, ◌*◌, ◌%◌, ◌^◌, ◌≤◌, ◌<◌, ◌≡◌, refl, sym, ap, subst, bit_xor, [], ◌∷◌, length, take,
  drop, arith, inl, inr, ==_cases, All, length-take, length-drop,
}
use orbitnet.Base.Bits.{bit_xor_small}
use orbitnet.Wire.Bytes.{Bytes, le_value}
use orbitnet.Wire.Bytes.Hostile.{IsByte, le_value_small, All-take, All-drop}
use native.Mathlib.Nat.{mul-le-mul_right, pow-le-pow_right}
use orbitnet.Auth.Sip
use orbitnet.Auth.Sip.{
  SipHasher, wrapping_add, rotate_left, round, absorb, drained, counted, write, finish,
}
use orbitnet.Auth.Sip.Words.{topped, push, pushes}
use orbitnet.Auth.Sip.Pieces.{IsTail, write-pushes, push-IsTail}

pub record IsWords (h : SipHasher) : Type 0 where
  pub w0 : h.v0 < 2 ^ 64
  pub w1 : h.v1 < 2 ^ 64
  pub w2 : h.v2 < 2 ^ 64
  pub w3 : h.v3 < 2 ^ 64

rotate_13 : (a : ℕ) → a < 2 ^ 64 → rotate_left a 13 < 2 ^ 64
rotate_13 a h = omega (arith, h)

rotate_16 : (a : ℕ) → a < 2 ^ 64 → rotate_left a 16 < 2 ^ 64
rotate_16 a h = omega (arith, h)

rotate_17 : (a : ℕ) → a < 2 ^ 64 → rotate_left a 17 < 2 ^ 64
rotate_17 a h = omega (arith, h)

rotate_21 : (a : ℕ) → a < 2 ^ 64 → rotate_left a 21 < 2 ^ 64
rotate_21 a h = omega (arith, h)

rotate_32 : (a : ℕ) → a < 2 ^ 64 → rotate_left a 32 < 2 ^ 64
rotate_32 a h = omega (arith, h)

wrapping_add_small : (a b : ℕ) → wrapping_add a b < 2 ^ 64
wrapping_add_small a b = omega arith

round-IsWords : (h : SipHasher) → IsWords h → IsWords (round h)
unfolding round
round-IsWords h w =
    let a0 = wrapping_add h.v0 h.v1 in
    let h0 = wrapping_add_small h.v0 h.v1 in
    let h1 = bit_xor_small 64 (rotate_left h.v1 13) a0 (rotate_13 h.v1 w.w1) h0 in
    let a1 = bit_xor (rotate_left h.v1 13) a0 in
    let a2 = wrapping_add h.v2 h.v3 in
    let a3 = bit_xor (rotate_left h.v3 16) a2 in
    let h3 =
      bit_xor_small 64 (rotate_left h.v3 16) a2 (rotate_16 h.v3 w.w3)
        (wrapping_add_small h.v2 h.v3) in
    let c0 = wrapping_add (rotate_left a0 32) a3 in
    let c2 = wrapping_add a2 a1 in
    record {
      w0 = wrapping_add_small (rotate_left a0 32) a3;
      w1 = bit_xor_small 64 (rotate_left a1 17) c2 (rotate_17 a1 h1) (wrapping_add_small a2 a1);
      w2 = rotate_32 c2 (wrapping_add_small a2 a1);
      w3 =
          bit_xor_small 64 (rotate_left a3 21) c0 (rotate_21 a3 h3)
            (wrapping_add_small (rotate_left a0 32) a3);
    }

absorb-IsWords : (h : SipHasher) (w : ℕ) → w < 2 ^ 64 → IsWords h → IsWords (absorb h w)
unfolding absorb
absorb-IsWords h w small v =
    let mixed : SipHasher = record h { v3 = bit_xor h.v3 w } in
    let start : IsWords mixed = record {
      w0 = v.w0;
      w1 = v.w1;
      w2 = v.w2;
      w3 = bit_xor_small 64 h.v3 w v.w3 small;
    } in
    let u = round-IsWords (round mixed) (round-IsWords mixed start) in
    record {
      w0 = bit_xor_small 64 (round (round mixed)).v0 w u.w0 small;
      w1 = u.w1;
      w2 = u.w2;
      w3 = u.w3;
    }

-- The tail is bytes, as many as are counted.
pub record IsPacked (h : SipHasher) : Type 0 where
  pub words : IsWords h
  pub tail : h.tail < 256 ^ h.ntail
  pub room : IsTail h

topped_small : (t b n : ℕ) → t < 256 ^ n → b < 256 → t + b * 256 ^ n < 256 ^ (n + 1)
topped_small t b n ht hb =
    let next : n + 1 ≡ suc n = omega arith in
    let power : 256 ^ (n + 1) ≡ 256 * 256 ^ n = omega (arith, ap (λ (k : ℕ). 256 ^ k) next) in
    let most : b * 256 ^ n ≤ 255 * 256 ^ n = mul-le-mul_right (256 ^ n) (omega (arith, hb)) in
    omega (arith, power, most, ht)

drained-IsPacked :
    (h : SipHasher) → h.tail < 2 ^ 64 → IsWords h → IsTail (drained h) → IsPacked (drained h)
unfolding drained absorb round
drained-IsPacked h small w room =
    let emptied : SipHasher = record h { tail = 0; ntail = 0 } in
    let v =
      absorb-IsWords emptied h.tail small (record { w0 = w.w0; w1 = w.w1; w2 = w.w2; w3 = w.w3 }) in
    record {
      words = record { w0 = v.w0; w1 = v.w1; w2 = v.w2; w3 = v.w3 };
      tail = omega arith;
      room = room;
    }

push-IsPacked : (h : SipHasher) (b : ℕ) → b < 256 → IsPacked h → IsPacked (push h b)
push-IsPacked h b small p =
    let grown = topped_small h.tail b h.ntail p.tail small in
    let w = p.words in
    let words : IsWords (topped h b) = record { w0 = w.w0; w1 = w.w1; w2 = w.w2; w3 = w.w3 } in
    let kept = push-IsTail h b p.room in
    elim (==_cases (h.ntail + 1) 8) [
      | inl (full, test) ↦
          let power : 256 ^ (h.ntail + 1) ≡ 256 ^ 8 = ap (λ (k : ℕ). 256 ^ k) full in
          let room = rw test at kept in
          rw test (drained-IsPacked (topped h b) (omega (arith, grown, power)) words room)
      | inr (short, test) ↦
          let room = rw test at kept in
          rw test (record { words = words; tail = grown; room = room })
    ]

pushes-IsPacked : (bs : Bytes) (h : SipHasher) → All IsByte bs → IsPacked h → IsPacked (pushes h bs)
unfolding pushes
pushes-IsPacked [] h all p = p
pushes-IsPacked (b ∷ bs) h all p = pushes-IsPacked bs (push h b) all.1 (push-IsPacked h b all.0 p)

pub write-IsPacked :
    (h : SipHasher) (bs : Bytes) → All IsByte bs → IsPacked h → IsPacked (write h bs)
write-IsPacked h bs all p =
    let w = p.words in
    let start : IsPacked (counted h bs) = record {
      words = record { w0 = w.w0; w1 = w.w1; w2 = w.w2; w3 = w.w3 };
      tail = p.tail;
      room = record { short = p.room.short; clear = p.room.clear };
    } in
    subst IsPacked (sym (write-pushes h bs p.room)) (pushes-IsPacked bs (counted h bs) all start)

pub new-IsPacked : (key : Bytes) → length key ≡ 16 → All IsByte key → IsPacked (Sip.new key)
unfolding Sip.new
new-IsPacked key size all =
    let k0 = le_value (take 8 key) in
    let k1 = le_value (drop 8 key) in
    let first =
      le_value_small 8 (take 8 key) (length-take 8 key (omega (arith, size)))
        (All-take 8 key all) in
    let behind = length-drop 8 key (omega (arith, size)) in
    let second = le_value_small 8 (drop 8 key) (omega (arith, behind, size)) (All-drop 8 key all) in
    record {
      words = record {
        w0 = bit_xor_small 64 8317987319222330741 k0 (omega arith) (omega (arith, first));
        w1 = bit_xor_small 64 7237128888997146477 k1 (omega arith) (omega (arith, second));
        w2 = bit_xor_small 64 7816392313619706465 k0 (omega arith) (omega (arith, first));
        w3 = bit_xor_small 64 8387220255154660723 k1 (omega arith) (omega (arith, second));
      };
      tail = omega arith;
      room = record { short = omega arith; clear = λ z. refl };
    }

pub finish-u64 : (h : SipHasher) → IsPacked h → finish h < 2 ^ 64
unfolding finish
finish-u64 h p =
    let word = h.tail + h.length % 256 * 2 ^ 56 in
    let least : 256 ^ h.ntail ≤ 256 ^ 7 =
      pow-le-pow_right (omega arith) {j = 7} (omega (arith, p.room.short)) in
    let small : word < 2 ^ 64 = omega (arith, least, p.tail) in
    let a = absorb-IsWords h word small p.words in
    let start : SipHasher = record (absorb h word) { v2 = bit_xor (absorb h word).v2 255 } in
    let s : IsWords start = record {
      w0 = a.w0;
      w1 = a.w1;
      w2 = bit_xor_small 64 (absorb h word).v2 255 a.w2 (omega arith);
      w3 = a.w3;
    } in
    let r = round (round (round (round start))) in
    let e =
      round-IsWords (round (round (round start))) (
        round-IsWords (round (round start))
          (round-IsWords (round start) (round-IsWords start s))) in
    bit_xor_small 64 (bit_xor r.v0 r.v1) (bit_xor r.v2 r.v3) (bit_xor_small 64 r.v0 r.v1 e.w0 e.w1)
      (bit_xor_small 64 r.v2 r.v3 e.w2 e.w3)
