-- ===== src/Auth/Session/Tags.antt =====
-- `tags_equal` folds every digit of the difference down to the lowest.
use orbitnet.Base.{ℕ, ◌/◌, ◌%◌, ◌^◌, ◌<◌, ◌≡◌, ◌↔◌, refl, sym, ◌∙◌, bit_xor, true, ==_iff, arith}
use orbitnet.Base.Bits.{bit_xor_self, bit_xor_zero, bit_xor_small, bit_or_low, bit_and_one}
use orbitnet.Auth.Session.{folded, tags_equal}

-- The digits of a number that are clear after the lower half of them and the higher one are or-ed.
clear_16 : (x : ℕ) → x < 2 ^ 32 → folded x 16 % 2 ^ 16 ≡ 0 → x ≡ 0
clear_16 x small h = let low = bit_or_low 16 x (x / 2 ^ 16) h in omega (arith, small, low.0, low.1)

clear_8 : (x : ℕ) → folded x 8 % 2 ^ 8 ≡ 0 → x % 2 ^ 16 ≡ 0
clear_8 x h = let low = bit_or_low 8 x (x / 2 ^ 8) h in omega (arith, low.0, low.1)

clear_4 : (x : ℕ) → folded x 4 % 2 ^ 4 ≡ 0 → x % 2 ^ 8 ≡ 0
clear_4 x h = let low = bit_or_low 4 x (x / 2 ^ 4) h in omega (arith, low.0, low.1)

clear_2 : (x : ℕ) → folded x 2 % 2 ^ 2 ≡ 0 → x % 2 ^ 4 ≡ 0
clear_2 x h = let low = bit_or_low 2 x (x / 2 ^ 2) h in omega (arith, low.0, low.1)

clear_1 : (x : ℕ) → folded x 1 % 2 ^ 1 ≡ 0 → x % 2 ^ 2 ≡ 0
clear_1 x h = let low = bit_or_low 1 x (x / 2 ^ 1) h in omega (arith, low.0, low.1)

clear_32 : (x : ℕ) → x < 2 ^ 64 → folded x 32 % 2 ^ 32 ≡ 0 → x ≡ 0
clear_32 x small h = let low = bit_or_low 32 x (x / 2 ^ 32) h in omega (arith, small, low.0, low.1)

-- Two u64 tags compare equal, without a branch on their contents, exactly if they are the same.
pub tags_equal_iff : (a b : ℕ) → a < 2 ^ 64 → b < 2 ^ 64 → (tags_equal a b ≡ true) ↔ (a ≡ b)
unfolding tags_equal
tags_equal_iff a b ha hb = (forth, back)
  where
    forth : tags_equal a b ≡ true → a ≡ b
    forth h =
        let low = folded (bit_xor a b) 32 % 2 ^ 32 in
        let f8 = folded (folded low 16) 8 in
        let f2 = folded (folded f8 4) 2 in
        let last = sym (bit_and_one (folded f2 1)) ∙ (==_iff _ 0).0 h in
        let zero_low =
          clear_16 low (omega arith)
            (clear_8 (folded low 16) (clear_4 f8 (clear_2 (folded f8 4) (clear_1 f2 last)))) in
        bit_xor_zero a b (clear_32 (bit_xor a b) (bit_xor_small 64 a b ha hb) zero_low)

    back : a ≡ b → tags_equal a b ≡ true
    back e = rw (e, bit_xor_self b) refl
