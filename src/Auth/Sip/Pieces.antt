-- ===== src/Auth/Sip/Pieces.antt =====
-- `write` is a byte at a time, and so hashes a message alike in whatever pieces it is written.
use orbitnet.Base.{
  ℕ, ◌+◌, ◌-◌, ◌%◌, ◌^◌, ◌≤◌, ◌<◌, ◌≡◌, ◌≢◌, refl, sym, ◌∙◌, ap, min, [], ◌∷◌, ◌++◌, ◌==◌,
  if◌then◌else◌, length, take, drop, arith, inl, inr, ==_cases, ltb, ltb_cases, length_zero,
  Bool-cases, take-drop, length-take, length-drop, length-append, subst,
}
use orbitnet.Wire.Bytes.{Bytes}
use orbitnet.Auth.Sip
use orbitnet.Auth.Sip.{
  SipHasher, round, absorb, fill, blocks, drained, counted, write, finish, siphash24,
}
use orbitnet.Auth.Sip.Words.{topped, push, pushes, pushes-append, pushes-fill, pushes-drained}
use orbitnet.Auth.Sip.Stream.{drained-IsEmptied, pushes-blocks}

-- The tail is short of a word, and zero where no byte is in it.
pub record IsTail (h : SipHasher) : Type 0 where
  pub short : h.ntail < 8
  pub clear : h.ntail ≡ 0 → h.tail ≡ 0

pub push-IsTail : (h : SipHasher) (b : ℕ) → IsTail h → IsTail (push h b)
push-IsTail h b v = elim (==_cases (h.ntail + 1) 8) [
  | inl (full, test) ↦
      let e = drained-IsEmptied (topped h b) in
      rw test (record { short = omega (arith, e.ntail); clear = λ z. e.tail })
  | inr (room, test) ↦
      rw test
        (record { short = omega (arith, v.short, room); clear = λ z. absurd (omega (arith, z)) })
]

pushes-IsTail : (bs : Bytes) (h : SipHasher) → IsTail h → IsTail (pushes h bs)
unfolding pushes
pushes-IsTail [] h v = v
pushes-IsTail (b ∷ bs) h v = pushes-IsTail bs (push h b) (push-IsTail h b v)

-- The total length has no part in the words.
abbrev with_length : ℕ → SipHasher → SipHasher
with_length n h = record h { length = n }

drained-with_length :
    (n : ℕ) (h : SipHasher) → drained (with_length n h) ≡ with_length n (drained h)
unfolding drained absorb round
drained-with_length n h = refl

length-drained : (h : SipHasher) → (drained h).length ≡ h.length
unfolding drained absorb round
length-drained h = refl

push-with_length :
    (n : ℕ) (h : SipHasher) (b : ℕ) → push (with_length n h) b ≡ with_length n (push h b)
push-with_length n h b = elim (Bool-cases (h.ntail + 1 == 8)) [
  | inl full ↦ rw full (drained-with_length n (topped h b))
  | inr room ↦ rw room refl
]

pushes-with_length :
    (bs : Bytes) (n : ℕ) (h : SipHasher) → pushes (with_length n h) bs ≡ with_length n (pushes h bs)
unfolding pushes
pushes-with_length [] n h = refl
pushes-with_length (b ∷ bs) n h =
    ap (λ k. pushes k bs) (push-with_length n h b) ∙ pushes-with_length bs n (push h b)

length-pushes : (bs : Bytes) (h : SipHasher) → (pushes h bs).length ≡ h.length
unfolding pushes
length-pushes [] h = refl
length-pushes (b ∷ bs) h = length-pushes bs (push h b) ∙ pushed h b
  where
    pushed : (h : SipHasher) (b : ℕ) → (push h b).length ≡ h.length
    pushed h b = elim (Bool-cases (h.ntail + 1 == 8)) [
      | inl full ↦ rw full (length-drained (topped h b))
      | inr room ↦ rw room refl
    ]

-- The bytes that go into a tail that is not empty.
write-pushes_on :
    (h : SipHasher) (bs : Bytes)
    → IsTail h
    → h.ntail ≢ 0
    → let n = min (8 - h.ntail) (length bs) in
      let filled = fill h (take n bs) in
      pushes h bs ≡ (if ltb filled.ntail 8 then filled else blocks (drained filled) (drop n bs))
unfolding fill pushes
write-pushes_on h bs v nz =
    let short = v.short in
    let n = min (8 - h.ntail) (length bs) in
    let within : n ≤ length bs = omega arith in
    let size = length-take n bs within in
    let left = length-drop n bs within in
    let first = ap (pushes h) (sym (take-drop n bs)) ∙ pushes-append h (take n bs) (drop n bs) in
    elim (ltb_cases (h.ntail + length (take n bs)) 8) [
      | inl (room, test) ↦ rw test (
          first
          ∙ ap (pushes (pushes h (take n bs)))
              (length_zero (drop n bs) (omega (arith, left, size, room)))
          ∙ pushes-fill (take n bs) h room)
      | inr (full, test) ↦
          let whole : h.ntail + length (take n bs) ≡ 8 = omega (arith, size, full, short) in
          let filled = drained (fill h (take n bs)) in
          rw test (
            first
            ∙ ap (λ k. pushes k (drop n bs))
                (pushes-drained (take n bs) h whole (omega (arith, whole, short)))
            ∙ pushes-blocks filled (drop n bs) (drained-IsEmptied (fill h (take n bs))))
    ]

counted-IsTail : (h : SipHasher) (bs : Bytes) → IsTail h → IsTail (counted h bs)
counted-IsTail h bs v = record { short = v.short; clear = v.clear }

pub write-pushes : (h : SipHasher) (bs : Bytes) → IsTail h → write h bs ≡ pushes (counted h bs) bs
unfolding write
write-pushes h bs v = elim (==_cases h.ntail 0) [
  | inl (none_yet, test) ↦
      rw test (
        sym
          (pushes-blocks (counted h bs) bs (record { tail = v.clear none_yet; ntail = none_yet })))
  | inr (some_yet, test) ↦
      rw test (sym (write-pushes_on (counted h bs) bs (counted-IsTail h bs v) some_yet))
]

pub write-IsTail : (h : SipHasher) (bs : Bytes) → IsTail h → IsTail (write h bs)
write-IsTail h bs v =
    subst IsTail (sym (write-pushes h bs v))
      (pushes-IsTail bs (counted h bs) (counted-IsTail h bs v))

pub new-IsTail : (key : Bytes) → IsTail (Sip.new key)
unfolding Sip.new
new-IsTail key = record { short = omega arith; clear = λ z. refl }

counted_twice : (a b c k : ℕ) → c ≡ a + b → ((k + a) % 2 ^ 64 + b) % 2 ^ 64 ≡ (k + c) % 2 ^ 64
counted_twice a b c k e = omega (arith, e)

-- A message hashes alike in whatever pieces it is written: writing `cs` and then `bs` to a hasher
-- with a tail short of a word, and zero where it is empty, leaves the state that writing the two
-- at once leaves, word for word and the count of bytes included.
pub write-append :
    (h : SipHasher) (cs bs : Bytes) → IsTail h → write (write h cs) bs ≡ write h (cs ++ bs)
write-append h cs bs v =
    let start = write-pushes h cs v in
    let n = (h.length + length (cs ++ bs)) % 2 ^ 64 in
    let held = pushes (counted h cs) cs in
    let count : (held.length + length bs) % 2 ^ 64 ≡ n =
      ap (λ (l : ℕ). (l + length bs) % 2 ^ 64) (length-pushes cs (counted h cs))
      ∙ counted_twice (length cs) (length bs) (length (cs ++ bs)) h.length (length-append cs bs) in
    write-pushes (write h cs) bs (write-IsTail h cs v)
    ∙ ap (λ k. pushes (counted k bs) bs) start
    ∙ ap (λ l. pushes (with_length l held) bs) count
    ∙ ap (λ k. pushes k bs) (sym (pushes-with_length cs n (counted h cs)))
    ∙ sym (pushes-append (with_length n h) cs bs)
    ∙ sym (write-pushes h (cs ++ bs) v)
