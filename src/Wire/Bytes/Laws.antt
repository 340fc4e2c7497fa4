-- ===== src/Wire/Bytes/Laws.antt =====
-- Reading back what was written, for the fixed widths, and how round trips compose.
use orbitnet.Base.{
  ℕ, zero, suc, ◌-◌, ◌/◌, ◌^◌, ◌<◌, ◌≡◌, refl, ◌∙◌, ap, false, [], ◌++◌, ltb, length, take, drop,
  arith, length-append, take_append, drop_append, subst,
}
use mathlib.Core.List.{append_assoc}
use orbitnet.Base.Int.{ℤ, pos, negsuc}
use orbitnet.Wire.Bytes.{
  Bytes, Outcome, got, Reader, after, ◌>>=◌, pure, or_default, recovered, bytes, le_bytes, le_value,
  uint, i8_code, i8_value, i8,
}

-- `m` reads `a` off a buffer that starts with `bs`, and exactly these bytes.
pub record Reads {ℓ} {A : Type ℓ} (m : Reader A) (bs : Bytes) (a : A) : Type ℓ where
  pub reads : (rest : Bytes) → m (bs ++ rest) ≡ got a rest

-- One read after another.
infixr 30 ◌then⟨◌⟩◌
pub ◌then⟨◌⟩◌ {ℓ κ} :
    {A : Type ℓ} {B : Type κ} {m : Reader A} {bs cs : Bytes} {a : A} {b : B}
    → Reads m bs a
    → (f : A → Reader B) → Reads (f a) cs b
    → Reads (m >>= f) (bs ++ cs) b
unfolding ◌>>=◌
◌then⟨◌⟩◌ {bs = bs} {cs = cs} r f s = record {
  reads = λ rest.
      rw (append_assoc bs cs rest) (ap (λ o. after o f) (r.reads (cs ++ rest)) ∙ s.reads rest);
}

pub after-Reads {ℓ κ} :
    {A : Type ℓ} {B : Type κ} {m : Reader A} {bs : Bytes} {a : A}
    → Reads m bs a
    → (f : A → Reader B) (rest : Bytes) → (m >>= f) (bs ++ rest) ≡ f a rest
unfolding ◌>>=◌
after-Reads r f rest = ap (λ o. after o f) (r.reads rest)

module _ {ℓ κ} {A : Type ℓ} {B : Type κ} where
  -- A read whose value is only mapped.
  pub Reads-map :
      (m : Reader A) (f : A → B) (bs : Bytes) (a : A)
      → Reads m bs a
      → Reads (m >>= λ x. pure (f x)) bs (f a)
  unfolding ◌>>=◌ pure
  Reads-map m f bs a r = record {
    reads = λ rest. ap (λ o. after o (λ x. pure (f x))) (r.reads rest);
  }

module _ {ℓ} {A : Type ℓ} where
  pub Reads-pure : (a : A) → Reads (pure a) [] a
  unfolding pure
  Reads-pure a = record { reads = λ rest. refl }

  pub Reads-or_default :
      (m : Reader A) (bs : Bytes) (a d : A) → Reads m bs a → Reads (or_default m d) bs a
  unfolding or_default
  Reads-or_default m bs a d r = record {
    reads = λ rest. ap (λ o. recovered d (bs ++ rest) o) (r.reads rest);
  }

pub Reads-bytes : (n : ℕ) (bs : Bytes) → length bs ≡ n → Reads (bytes n) bs bs
unfolding bytes
Reads-bytes n bs e = record {
  reads = λ rest.
      let enough : ltb (length (bs ++ rest)) n ≡ false =
        let total = length-append bs rest in ground arith in
      rw enough (
        subst
          (λ k.
            ◌≡◌ {A = Outcome Bytes} (got (take k (bs ++ rest)) (drop k (bs ++ rest))) (got bs rest))
          e (rw (take_append bs rest, drop_append bs rest) refl));
}

pub length-le_bytes : (w v : ℕ) → length (le_bytes w v) ≡ w
unfolding le_bytes
length-le_bytes zero v = refl
length-le_bytes (suc w) v = omega (arith, length-le_bytes w (v / 256))

pub le_value-le_bytes : (w v : ℕ) → v < 256 ^ w → le_value (le_bytes w v) ≡ v
unfolding le_bytes le_value
le_value-le_bytes zero v h = omega arith
le_value-le_bytes (suc w) v h =
    let tail = le_value-le_bytes w (v / 256) (omega arith) in omega (arith, tail)

-- Every width reads back what fits it.
pub Reads-uint : (w v : ℕ) → v < 256 ^ w → Reads (uint w) (le_bytes w v) v
unfolding uint
Reads-uint w v h =
    subst (λ u. Reads (uint w) (le_bytes w v) u) (le_value-le_bytes w v h)
      (Reads-map (bytes w) le_value (le_bytes w v) (le_bytes w v)
        (Reads-bytes w (le_bytes w v) (length-le_bytes w v)))

-- The range of `i8`.
abbrev pub IsI8 : ℤ → Type 0
IsI8 (pos n) = n < 128
IsI8 (negsuc n) = n < 128

i8_code_small : (z : ℤ) → IsI8 z → i8_code z < 256 ^ 1
unfolding i8_code
i8_code_small (pos n) h = omega arith
i8_code_small (negsuc n) h = omega arith

i8_value-i8_code : (z : ℤ) → IsI8 z → i8_value (i8_code z) ≡ z
unfolding i8_value i8_code
i8_value-i8_code (pos n) h = ground arith
i8_value-i8_code (negsuc n) h = let back : 255 - (255 - n) ≡ n = omega arith in ground arith

pub Reads-i8 : (z : ℤ) → IsI8 z → Reads i8 (le_bytes 1 (i8_code z)) z
unfolding i8
Reads-i8 z h =
    subst (λ u. Reads i8 (le_bytes 1 (i8_code z)) u) (i8_value-i8_code z h)
      (Reads-map (uint 1) i8_value (le_bytes 1 (i8_code z)) (i8_code z)
        (Reads-uint 1 (i8_code z) (i8_code_small z h)))
