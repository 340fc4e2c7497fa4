-- ===== src/Wire/Block/Tests.antt =====
-- Runs of the entity blocks.
use orbitnet.Base.{
  ℕ, ◌≡◌, refl, min, true, false, Option, none, some, List, [], ◌∷◌, ◌++◌, ltb, if◌then◌else◌,
  length, take, get_or, arith,
}
use orbitnet.Wire.Bytes.{Bytes, got, le_bytes, varint_bytes, varint_loop}
use orbitnet.Wire.Bytes.Laws.{Reads}
use orbitnet.Wire.Mask.{bitmask, mask_chunks, mask_byte}
use orbitnet.Columnar.{changed_mask}
use orbitnet.Schema.{stride}
use orbitnet.Quant.{
  wire_row_stride, wire_stride, encode_row, encode_prop, encode_halves, floats, le_all,
  write_masked_wire,
}
use orbitnet.Quant.Half.{f32_to_f16_bits}
use orbitnet.Wire.Bytes.{le_value}
use orbitnet.Quant.Sample.{whole, props, zero_row, one_row, props-Fills}
use orbitnet.Wire.Block.{
  state_body, delta_body, encode_state_block, encode_rows, encode_input_block,
  decode_input_block_meta, input_block_row, skip_input_block_body,
}
use orbitnet.Wire.Block.Input.{input_meta, input_block_lem}

abbrev held : ℕ → Option Bytes
held tick = some zero_row

-- A delta of one property: the mask has its second bit, and the half follows.
delta_runs :
    encode_state_block whole props 7 100 98 (some (96, zero_row)) one_row true
    ≡ (7 ∷ 0 ∷ 2 ∷ 5 ∷ 2 ∷ 2 ∷ 2 ∷ 0 ∷ 60 ∷ [], false)
unfolding encode_state_block state_body delta_body changed_mask write_masked_wire encode_prop
    encode_halves floats le_all le_bytes le_value f32_to_f16_bits stride varint_bytes varint_loop
    bitmask mask_chunks mask_byte
delta_runs = refl

abbrev rows : List Bytes
rows = one_row ∷ zero_row ∷ []

input_block_lem_example :
    (decode_input_block_meta 100 (encode_input_block whole props 7 100 102 rows ++ (9 ∷ []))
      ≡ got (input_meta props 7 102 rows) (encode_rows whole props (take 255 rows) ++ (9 ∷ [])))
    × (input_block_row
          (encode_rows whole props (take 255 rows) ++ (9 ∷ []))
          (input_meta props 7 102 rows)
          (wire_row_stride props)
          1
        ≡ (if ltb 1 (min (length rows) 255)
            then some (encode_row whole props (get_or rows 1 []))
            else none))
    × Reads
        (skip_input_block_body (input_meta props 7 102 rows))
        (encode_rows whole props (take 255 rows))
        tt
unfolding wire_row_stride wire_stride stride
input_block_lem_example =
    input_block_lem whole props 5 props-Fills 7 100 102 1 rows (9 ∷ []) (omega arith) (omega arith)
      (omega arith) (omega arith) (omega arith) (refl, (refl, tt))
