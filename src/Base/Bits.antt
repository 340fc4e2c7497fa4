-- ===== src/Base/Bits.antt =====
-- The binary digits that `bit_xor`, `bit_or` and `bit_and` combine.
use Prim.Native.Nat.{
  ℕ, zero, suc, ◌+◌, ◌*◌, ◌/◌, ◌%◌, ◌^◌, ◌≤◌, ◌<◌, min, max, bit_and, bit_or, bit_xor, digits,
  differ, bit_xor-bitwise, bit_or-bitwise, bit_and-bitwise,
}
use mathlib.Core.Path.{◌≡◌, refl, ap, sym, ◌∙◌}
use native.Mathlib.Omega.{arith, div_any}
use native.Mathlib.Nat.{add-mul-mod_self_left, mod-eq_of_lt, mod-lt}

-- What two digits make is a digit.
differ_small : (x y : ℕ) → x < 2 → y < 2 → differ x y < 2
differ_small zero y hx hy = hy
differ_small (suc zero) zero hx hy = hx
differ_small (suc zero) (suc zero) hx hy = omega arith
differ_small (suc zero) (suc (suc y)) hx hy = absurd (omega (arith, hy))
differ_small (suc (suc x)) y hx hy = absurd (omega (arith, hx))

differ_self : (x : ℕ) → differ x x ≡ 0
differ_self zero = refl
differ_self (suc x) = differ_self x

differ_zero : (x y : ℕ) → differ x y ≡ 0 → x ≡ y
differ_zero zero y h = sym h
differ_zero (suc x) zero h = h
differ_zero (suc x) (suc y) h = ap suc (differ_zero x y h)

-- A bound of a power of two is kept.
digits_small :
    (f : ℕ → ℕ → ℕ) (n w a b : ℕ)
    → ((x y : ℕ) → x < 2 → y < 2 → f x y < 2)
    → a < 2 ^ w
    → b < 2 ^ w
    → digits (λ b. b) f n a b < 2 ^ w
digits_small f zero w a b small ha hb = hb
digits_small f (suc n) w zero b small ha hb = hb
digits_small f (suc n) zero (suc a) b small ha hb = absurd (omega (arith, ha))
digits_small f (suc n) (suc w) (suc a) b small ha hb =
    let high =
      digits_small f n w (suc a / 2) (b / 2) small (omega (arith, ha)) (omega (arith, hb)) in
    let low = small (suc a % 2) (b % 2) (omega arith) (omega arith) in omega (arith, high, low)

pub bit_xor_small : (w a b : ℕ) → a < 2 ^ w → b < 2 ^ w → bit_xor a b < 2 ^ w
bit_xor_small w a b ha hb =
    rw (bit_xor-bitwise a b) (digits_small differ a w a b differ_small ha hb)

digits-differ_self : (n a : ℕ) → a ≤ n → digits (λ b. b) differ n a a ≡ 0
digits-differ_self zero a h = omega (arith, h)
digits-differ_self (suc n) zero h = refl
digits-differ_self (suc n) (suc a) h =
    omega (arith, digits-differ_self n (suc a / 2) (omega (arith, h)), differ_self (suc a % 2))

pub bit_xor_self : (a : ℕ) → bit_xor a a ≡ 0
bit_xor_self a = bit_xor-bitwise a a ∙ digits-differ_self a a (omega arith)

digits-differ_zero : (n a b : ℕ) → a ≤ n → digits (λ b. b) differ n a b ≡ 0 → a ≡ b
digits-differ_zero zero a b h e = omega (arith, h, e)
digits-differ_zero (suc n) zero b h e = sym e
digits-differ_zero (suc n) (suc a) b h e =
    let high = digits-differ_zero n (suc a / 2) (b / 2) (omega (arith, h)) (omega (arith, e)) in
    let low = differ_zero (suc a % 2) (b % 2) (omega (arith, e)) in omega (arith, high, low)

pub bit_xor_zero : (a b : ℕ) → bit_xor a b ≡ 0 → a ≡ b
bit_xor_zero a b e = digits-differ_zero a a b (omega arith) (sym (bit_xor-bitwise a b) ∙ e)

-- A digit below the low digits of a number.
digit_below : (h f p : ℕ) → f < 2 → 0 < p → (h * 2 + f) % (p * 2) ≡ h % p * 2 + f
digit_below h f p small some_place =
    let below = mod-lt h some_place in
    let split : h * 2 + f ≡ h % p * 2 + f + p * 2 * (h / p) = omega (arith, div_any h p) in
    ap (λ (t : ℕ). t % (p * 2)) split
    ∙ add-mul-mod_self_left (h % p * 2 + f) (p * 2) (h / p)
    ∙ mod-eq_of_lt (omega (arith, below, small))

pub power_positive : (k : ℕ) → 0 < 2 ^ k
power_positive zero = omega arith
power_positive (suc k) = omega (arith, power_positive k)

halves_low : (k a : ℕ) → a % 2 ^ suc k ≡ a / 2 % 2 ^ k * 2 + a % 2
halves_low k a =
    let whole : a / 2 * 2 + a % 2 ≡ a = omega arith in
    let places : 2 ^ k * 2 ≡ 2 ^ suc k = omega arith in
    sym (ap (λ (t : ℕ). t % 2 ^ suc k) whole)
    ∙ sym (ap (λ (p : ℕ). (a / 2 * 2 + a % 2) % p) places)
    ∙ digit_below (a / 2) (a % 2) (2 ^ k) (omega arith) (power_positive k)

-- The low digits of an or are clear only where they are in both.
digits-max_low :
    (n k a b : ℕ)
    → a ≤ n
    → digits (λ b. b) max n a b % 2 ^ k ≡ 0
    → (a % 2 ^ k ≡ 0) × (b % 2 ^ k ≡ 0)
digits-max_low zero k a b h e = (rw zero_value (zero_low k), e)
  where
    zero_value : a ≡ 0
    zero_value = omega (arith, h)

    zero_low : (k : ℕ) → 0 % 2 ^ k ≡ 0
    zero_low k = omega arith
digits-max_low (suc n) k zero b h e = (omega arith, e)
digits-max_low (suc n) zero (suc a) b h e = (omega arith, omega arith)
digits-max_low (suc n) (suc k) (suc a) b h e =
    let rest = digits (λ b. b) max n (suc a / 2) (b / 2) in
    let top = max (suc a % 2) (b % 2) in
    let places : 2 ^ k * 2 ≡ 2 ^ suc k = omega arith in
    let split : rest % 2 ^ k * 2 + top ≡ 0 =
      sym (digit_below rest top (2 ^ k) (omega arith) (power_positive k))
      ∙ ap (λ (p : ℕ). (rest * 2 + top) % p) places
      ∙ e in
    let (left, right) =
      digits-max_low n k (suc a / 2) (b / 2) (omega (arith, h)) (omega (arith, split)) in
    (
      halves_low k (suc a) ∙ omega (arith, left, split),
      halves_low k b ∙ omega (arith, right, split),
    )

pub bit_or_low : (k a b : ℕ) → bit_or a b % 2 ^ k ≡ 0 → (a % 2 ^ k ≡ 0) × (b % 2 ^ k ≡ 0)
bit_or_low k a b e =
    digits-max_low a k a b (omega arith) (ap (λ (t : ℕ). t % 2 ^ k) (sym (bit_or-bitwise a b)) ∙ e)

digits-min_zero : (n a : ℕ) → digits (λ b. 0) min n a 0 ≡ 0
digits-min_zero zero a = refl
digits-min_zero (suc n) zero = refl
digits-min_zero (suc n) (suc a) = omega (arith, digits-min_zero n (suc a / 2))

pub bit_and_one : (a : ℕ) → bit_and a 1 ≡ a % 2
bit_and_one zero = bit_and-bitwise 0 1
bit_and_one (suc a) = omega (arith, bit_and-bitwise (suc a) 1, digits-min_zero a (suc a / 2))

-- The digits left do not depend on the count, once it covers them.
digits_fuel :
    (f : ℕ → ℕ → ℕ) (n m a b : ℕ)
    → a ≤ n
    → a ≤ m
    → digits (λ b. b) f n a b ≡ digits (λ b. b) f m a b
digits_fuel f zero zero a b h k = refl
digits_fuel f zero (suc m) zero b h k = refl
digits_fuel f zero (suc m) (suc a) b h k = absurd (omega (arith, h))
digits_fuel f (suc n) zero zero b h k = refl
digits_fuel f (suc n) zero (suc a) b h k = absurd (omega (arith, k))
digits_fuel f (suc n) (suc m) zero b h k = refl
digits_fuel f (suc n) (suc m) (suc a) b h k =
    ap (λ (t : ℕ). t * 2 + f (suc a % 2) (b % 2))
      (digits_fuel f n m (suc a / 2) (b / 2) (omega (arith, h)) (omega (arith, k)))

bit_xor_step : (a b : ℕ) → bit_xor a b ≡ bit_xor (a / 2) (b / 2) * 2 + differ (a % 2) (b % 2)
bit_xor_step zero b =
    bit_xor-bitwise 0 b ∙ omega (arith, bit_xor-bitwise 0 (b / 2), differ_none (b % 2))
  where
    differ_none : (y : ℕ) → differ 0 y ≡ y
    differ_none y = refl
bit_xor_step (suc a) b =
    let half = suc a / 2 in
    bit_xor-bitwise (suc a) b
    ∙ ap (λ (t : ℕ). t * 2 + differ (suc a % 2) (b % 2))
        (digits_fuel differ a half half (b / 2) (omega arith) (omega arith)
          ∙ sym (bit_xor-bitwise half (b / 2)))

differ_cancel : (x y z : ℕ) → x < 2 → y < 2 → z < 2 → differ x z ≡ differ y z → x ≡ y
differ_cancel zero zero z hx hy hz e = refl
differ_cancel (suc zero) (suc zero) z hx hy hz e = refl
differ_cancel zero (suc zero) zero hx hy hz e = e
differ_cancel zero (suc zero) (suc zero) hx hy hz e = sym e
differ_cancel (suc zero) zero zero hx hy hz e = e
differ_cancel (suc zero) zero (suc zero) hx hy hz e = sym e
differ_cancel zero (suc zero) (suc (suc z)) hx hy hz e = absurd (omega (arith, hz))
differ_cancel (suc zero) zero (suc (suc z)) hx hy hz e = absurd (omega (arith, hz))
differ_cancel (suc (suc x)) y z hx hy hz e = absurd (omega (arith, hx))
differ_cancel zero (suc (suc y)) z hx hy hz e = absurd (omega (arith, hy))
differ_cancel (suc zero) (suc (suc y)) z hx hy hz e = absurd (omega (arith, hy))

-- What is xored in can be cancelled.
bit_xor_cancel_below : (k a b c : ℕ) → a < 2 ^ k → b < 2 ^ k → bit_xor a c ≡ bit_xor b c → a ≡ b
bit_xor_cancel_below zero a b c ha hb e = omega (arith, ha, hb)
bit_xor_cancel_below (suc k) a b c ha hb e =
    let low_a = differ_small (a % 2) (c % 2) (omega arith) (omega arith) in
    let low_b = differ_small (b % 2) (c % 2) (omega arith) (omega arith) in
    let same = sym (bit_xor_step a c) ∙ e ∙ bit_xor_step b c in
    let high =
      bit_xor_cancel_below k (a / 2) (b / 2) (c / 2) (omega (arith, ha)) (omega (arith, hb))
        (omega (arith, same, low_a, low_b)) in
    let low =
      differ_cancel (a % 2) (b % 2) (c % 2) (omega arith) (omega arith) (omega arith)
        (omega (arith, same, low_a, low_b)) in
    omega (arith, high, low)

pub bit_xor_cancel : (a b c : ℕ) → a < 2 ^ 64 → b < 2 ^ 64 → bit_xor a c ≡ bit_xor b c → a ≡ b
bit_xor_cancel a b c ha hb e = bit_xor_cancel_below 64 a b c ha hb e

differ_comm : (x y : ℕ) → differ x y ≡ differ y x
differ_comm zero zero = refl
differ_comm zero (suc y) = refl
differ_comm (suc x) zero = refl
differ_comm (suc x) (suc y) = differ_comm x y

bit_xor_comm_below : (k a b : ℕ) → a < 2 ^ k → b < 2 ^ k → bit_xor a b ≡ bit_xor b a
bit_xor_comm_below zero a b ha hb =
    let za : a ≡ 0 = omega (arith, ha) in let zb : b ≡ 0 = omega (arith, hb) in rw (za, zb) refl
bit_xor_comm_below (suc k) a b ha hb =
    bit_xor_step a b
    ∙ omega (
      arith,
      bit_xor_comm_below k (a / 2) (b / 2) (omega (arith, ha)) (omega (arith, hb)),
      differ_comm (a % 2) (b % 2),
    )
    ∙ sym (bit_xor_step b a)

pub bit_xor_comm : (a b : ℕ) → a < 2 ^ 64 → b < 2 ^ 64 → bit_xor a b ≡ bit_xor b a
bit_xor_comm a b ha hb = bit_xor_comm_below 64 a b ha hb
