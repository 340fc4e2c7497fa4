-- ===== src/Quant/Half/Table.antt =====
-- The conversions at every binary16 value.
use orbitnet.Base.{
  ℕ, zero, suc, ◌/◌, ◌%◌, ◌^◌, ◌<◌, ◌≡◌, refl, Bool, true, false, ◌&&◌, ltb, ◌==◌, if◌then◌else◌,
  arith, ==_iff, &&_true, ltb→lt,
}
use orbitnet.Quant.Half.{f32_to_f16_bits, f16_bits_to_f32, top_bit, is_finite}

-- What a binary16 comes back as.
abbrev pub settled : ℕ → ℕ
settled h = if ltb (h / 2 ^ 10 % 32) 31 then h else 0

check : ℕ → Bool
check h =
    is_finite (f16_bits_to_f32 h)
    && (f32_to_f16_bits (f16_bits_to_f32 h) == settled h && ltb (f16_bits_to_f32 h) (2 ^ 32))

-- The check at the first so many values, from the last of them down.
checked : ℕ → Bool
checked zero = true
checked (suc below) = if check below then checked below else false

checked_at : (bound h : ℕ) → checked bound ≡ true → h < bound → check h ≡ true
unfolding checked
checked_at zero h run under = absurd (omega arith)
checked_at (suc below) h run under = ground (arith, checked_at below h)

table : checked (2 ^ 16) ≡ true
unfolding checked check f32_to_f16_bits f16_bits_to_f32 top_bit
table = refl

pub table_at :
    (h : ℕ)
    → h < 2 ^ 16
    → (is_finite (f16_bits_to_f32 h) ≡ true)
      × (f32_to_f16_bits (f16_bits_to_f32 h) ≡ settled h)
      × (f16_bits_to_f32 h < 2 ^ 32)
unfolding check
table_at h small =
    let both = &&_true _ _ (checked_at (2 ^ 16) h table small) in
    let rest = &&_true _ _ both.1 in (both.0, (==_iff _ _).0 rest.0, ltb→lt _ _ rest.1)
