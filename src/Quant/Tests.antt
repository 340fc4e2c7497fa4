-- ===== src/Quant/Tests.antt =====
-- Runs of the quantizers.
use orbitnet.Base.{◌≡◌, refl, some, [], ◌∷◌, length}
use orbitnet.Wire.Bytes.{Bytes}
use orbitnet.Schema.{vec3, half, stride, valid_for}
use orbitnet.Columnar.{changed_mask}
use orbitnet.Quant.Half.{f32_to_f16_bits, f16_bits_to_f32}
use orbitnet.Quant.{masked_wire_size, write_masked_wire, apply_masked_wire, canonicalize_value}
use orbitnet.Quant.Delta.{IsCanonical}
use orbitnet.Quant.Rows.{apply_masked_wire-changed_mask}
use orbitnet.Quant.Settle.{canonicalize_value-IsCanonical}
use orbitnet.Quant.Sample.{whole, props, zero_row, one_row, props-Fills, one_row-IsCanonicalRow}

halves_run :
    (f32_to_f16_bits 0x3f800000 ≡ 0x3c00)
    × (f32_to_f16_bits 0x7f800000 ≡ 0)
    × (f32_to_f16_bits 0x47c35000 ≡ 0x7bff)
    × (f16_bits_to_f32 1 ≡ 0x33800000)
    × (f16_bits_to_f32 0x7c00 ≡ 0)
unfolding f32_to_f16_bits f16_bits_to_f32
halves_run = (refl, refl, refl, refl, refl)

apply_masked_wire-changed_mask_example :
    apply_masked_wire whole props
      (changed_mask props zero_row one_row)
      (write_masked_wire whole props (changed_mask props zero_row one_row) one_row)
      zero_row
    ≡ (some (masked_wire_size props (changed_mask props zero_row one_row)), one_row)
apply_masked_wire-changed_mask_example =
    apply_masked_wire-changed_mask whole props 5 zero_row one_row props-Fills refl refl
      one_row-IsCanonicalRow

-- A vector with a poisoned component and one that is out of the range of halves.
abbrev wild : Bytes
wild = 0 ∷ 0 ∷ 192 ∷ 127 ∷ 0 ∷ 80 ∷ 195 ∷ 71 ∷ 1 ∷ 0 ∷ 128 ∷ 63 ∷ []

canonicalize_value-IsCanonical_example :
    IsCanonical whole vec3 half (canonicalize_value whole vec3 half wild)
    × (length (canonicalize_value whole vec3 half wild) ≡ stride vec3)
unfolding valid_for stride
canonicalize_value-IsCanonical_example =
    canonicalize_value-IsCanonical whole vec3 half wild refl (λ e. cc e) refl
