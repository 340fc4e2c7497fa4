-- ===== src/Auth/Sip/Stream.antt =====
-- `write` on an empty tail: the whole words, and the bytes behind them.
use orbitnet.Base.{
  ℕ, zero, suc, ◌+◌, ◌*◌, ◌/◌, ◌^◌, ◌≤◌, ◌≡◌, refl, sym, ◌∙◌, ap, length, take, drop, arith,
  take-drop, length-take, length-drop, drop_add,
}
use orbitnet.Wire.Bytes.{Bytes, le_value}
use orbitnet.Auth.Sip.{SipHasher, round, absorb, fill, chunks, blocks, drained}
use orbitnet.Auth.Sip.Words.{pushes, pushes-append, pushes-fill, pushes-drained}

-- An empty tail.
pub record IsEmptied (h : SipHasher) : Type 0 where
  pub tail : h.tail ≡ 0
  pub ntail : h.ntail ≡ 0

absorb-IsEmptied : (h : SipHasher) (w : ℕ) → IsEmptied h → IsEmptied (absorb h w)
unfolding absorb round
absorb-IsEmptied h w e = record { tail = e.tail; ntail = e.ntail }

pub drained-IsEmptied : (h : SipHasher) → IsEmptied (drained h)
unfolding drained absorb round
drained-IsEmptied h = record { tail = refl; ntail = refl }

whole_word : (t v n : ℕ) → t ≡ 0 → n ≡ 0 → t + v * 256 ^ n ≡ v
whole_word t v n et en =
    let power : 256 ^ n ≡ 1 = ap (λ (k : ℕ). 256 ^ k) en in
    omega (arith, et, ap (λ (p : ℕ). v * p) power)

-- A word over an empty tail is absorbed as it is.
drained-fill :
    (h : SipHasher) (bs : Bytes) → IsEmptied h → drained (fill h bs) ≡ absorb h (le_value bs)
unfolding drained fill
drained-fill h bs e i =
    absorb (record h { tail = sym e.tail i; ntail = sym e.ntail i })
      (whole_word h.tail (le_value bs) h.ntail e.tail e.ntail i)

split_words : (n l : ℕ) → 8 * suc n ≤ l → 8 ≤ l
split_words n l h = omega arith

pushes-chunks :
    (n : ℕ) (h : SipHasher) (bs : Bytes)
    → IsEmptied h
    → 8 * n ≤ length bs
    → (pushes h bs ≡ pushes (chunks n h bs) (drop (8 * n) bs)) × IsEmptied (chunks n h bs)
unfolding chunks
pushes-chunks zero h bs e within = (refl, e)
pushes-chunks (suc n) h bs e within =
    let eight = length-take 8 bs (split_words n (length bs) within) in
    let left = length-drop 8 bs (split_words n (length bs) within) in
    let word = le_value (take 8 bs) in
    let (same, emptied) =
      pushes-chunks n (absorb h word) (drop 8 bs) (absorb-IsEmptied h word e)
        (omega (arith, left, within)) in
    let start : pushes h (take 8 bs) ≡ absorb h word =
      pushes-drained (take 8 bs) h (omega (arith, e.ntail, eight)) (omega (arith, eight))
      ∙ drained-fill h (take 8 bs) e in
    let places : 8 + 8 * n ≡ 8 * suc n = omega arith in
    (
      ap (pushes h) (sym (take-drop 8 bs))
          ∙ pushes-append h (take 8 bs) (drop 8 bs)
          ∙ ap (λ k. pushes k (drop 8 bs)) start
          ∙ same
          ∙ ap (pushes (chunks n (absorb h word) (drop 8 bs)))
              (drop_add 8 (8 * n) bs ∙ ap (λ k. drop k bs) places),
      emptied,
    )

pub pushes-blocks : (h : SipHasher) (bs : Bytes) → IsEmptied h → pushes h bs ≡ blocks h bs
unfolding blocks
pushes-blocks h bs e =
    let n = length bs / 8 in
    let left = length-drop (8 * n) bs (omega arith) in
    let (same, emptied) = pushes-chunks n h bs e (omega arith) in
    same ∙ pushes-fill (drop (8 * n) bs) (chunks n h bs) (omega (arith, emptied.ntail, left))
