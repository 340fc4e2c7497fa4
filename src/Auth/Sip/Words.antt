-- ===== src/Auth/Sip/Words.antt =====
-- One byte at a time: the tail that `write` fills and the words that it absorbs.
use orbitnet.Base.{
  ℕ, suc, ◌+◌, ◌*◌, ◌^◌, ◌<◌, ◌≡◌, refl, sym, ◌∙◌, ap, true, false, [], ◌∷◌, ◌++◌, ◌==◌,
  if◌then◌else◌, length, arith,
}
use orbitnet.Wire.Bytes.{Bytes, le_value}
use orbitnet.Auth.Sip.{SipHasher, fill, drained}

-- The tail after one more byte.
abbrev pub topped : SipHasher → ℕ → SipHasher
topped h b = record h { tail = h.tail + b * 256 ^ h.ntail; ntail = h.ntail + 1 }

abbrev pub push : SipHasher → ℕ → SipHasher
push h b = if h.ntail + 1 == 8 then drained (topped h b) else topped h b

unfoldable pub pushes : SipHasher → Bytes → SipHasher
pushes h [] = h
pushes h (b ∷ bs) = pushes (push h b) bs

pub pushes-append : (h : SipHasher) (cs bs : Bytes) → pushes h (cs ++ bs) ≡ pushes (pushes h cs) bs
unfolding pushes
pushes-append h [] bs = refl
pushes-append h (c ∷ cs) bs = pushes-append (push h c) cs bs

-- The value of a byte and of the bytes behind it.
value_cons : (t b v n : ℕ) → t + b * 256 ^ n + v * 256 ^ (n + 1) ≡ t + (b + 256 * v) * 256 ^ n
value_cons t b v n =
    let next : n + 1 ≡ suc n = omega arith in
    let power : 256 ^ (n + 1) ≡ 256 * 256 ^ n = omega (arith, ap (λ (k : ℕ). 256 ^ k) next) in
    omega (arith, ap (λ (t : ℕ). v * t) power)

count_cons : (n l : ℕ) → n + 1 + l ≡ n + suc l
count_cons n l = omega arith

pub fill-topped : (h : SipHasher) (b : ℕ) (bs : Bytes) → fill (topped h b) bs ≡ fill h (b ∷ bs)
unfolding fill le_value
fill-topped h b bs i = record h {
  tail = value_cons h.tail b (le_value bs) h.ntail i;
  ntail = count_cons h.ntail (length bs) i;
}

nothing_added : (t n : ℕ) → t + 0 * 256 ^ n ≡ t
nothing_added t n = omega arith

no_more : (n : ℕ) → n + 0 ≡ n
no_more n = omega arith

pub fill-nil : (h : SipHasher) → fill h [] ≡ h
unfolding fill le_value
fill-nil h i = record h { tail = nothing_added h.tail h.ntail i; ntail = no_more h.ntail i }

-- Bytes that leave the tail short of a word, and bytes that fill it.
pub pushes-fill : (bs : Bytes) (h : SipHasher) → h.ntail + length bs < 8 → pushes h bs ≡ fill h bs
unfolding pushes
pushes-fill [] h short = sym (fill-nil h)
pushes-fill (b ∷ bs) h short =
    let room : (h.ntail + 1 == 8) ≡ false = ground arith in
    rw room (pushes-fill bs (topped h b) (omega (arith, short)) ∙ fill-topped h b bs)

pub pushes-drained :
    (bs : Bytes) (h : SipHasher)
    → h.ntail + length bs ≡ 8
    → 0 < length bs
    → pushes h bs ≡ drained (fill h bs)
unfolding pushes
pushes-drained [] h full some_byte = ground arith
pushes-drained (b ∷ []) h full some_byte =
    let last : (h.ntail + 1 == 8) ≡ true = ground arith in
    rw last (ap drained (sym (fill-nil (topped h b)) ∙ fill-topped h b []))
pushes-drained (b ∷ c ∷ bs) h full some_byte =
    let more : (h.ntail + 1 == 8) ≡ false = ground arith in
    rw more (
      pushes-drained (c ∷ bs) (topped h b) (omega (arith, full)) (omega arith)
      ∙ ap drained (fill-topped h b (c ∷ bs)))
