-- ===== src/Wire/Block.antt =====
-- The entity blocks of codec.rs: the state of one entity in a snapshot, and the input for one.
pub mod Receive
pub mod State
pub mod Input
mod Tests
use orbitnet.Base.{
  ℕ, zero, suc, ◌+◌, ◌-◌, ◌*◌, ◌/◌, ◌%◌, ◌^◌, min, Bool, true, false, not, ◌||◌, Option, none, some,
  List, [], ◌∷◌, ◌++◌, ltb, ◌==◌, if◌then◌else◌, length, take, drop, saturating_add,
}
use orbitnet.Base.Int.{ℤ, pos, negsuc, sub_ℕ}
use orbitnet.Wire.Bytes.{
  Bytes, Outcome, got, fail, unexpected_eof, Reader, written, ◌>>=◌, pure, throw, bytes, peek_bytes,
  le_bytes, uint, varint_bytes, varint, zigzag_code, zigzag,
}
use orbitnet.Schema.{PropSchema}
use orbitnet.Columnar.{changed_mask}
use orbitnet.Quant.Ss3.{Float}
use orbitnet.Quant.{wire_row_stride, encode_row, decode_row, write_masked_wire, apply_masked_wire}
use orbitnet.Wire.Mask.{mask_len, bitmask, bitmask_into}

pub record StateBlockMeta : Type 0 where
  pub slot : ℕ
  pub tick : ℕ
  pub full : Bool
  pub state_lane : Bool
  pub reference_tick : Option ℕ
  pub body_len : ℕ

-- `STATE_BLOCK_LANE`.
abbrev pub lane_flag : Bool → ℕ
lane_flag true = 2
lane_flag false = 0

-- The rest of the buffer is looked at, not read.
unfoldable pub remaining : Reader ℕ
remaining = λ buf. got (length buf) buf

-- `reader.varint()?` as a length that the buffer holds, of one byte at least.
abbrev pub held_len : ℕ → ℕ → Reader ℕ
held_len len left = if ltb left len || ltb len 1 then throw unexpected_eof else pure len

-- `checked_sub` of what was consumed.
abbrev pub len_left : ℕ → ℕ → Reader ℕ
len_left len consumed = if ltb len consumed then throw unexpected_eof else pure (len - consumed)

abbrev pub reference_of : Bool → ℕ → Reader (Option ℕ)
reference_of true tick = pure none
reference_of false tick = varint >>= λ delta. pure (some (tick - delta))

unfoldable pub decode_state_block_meta : ℕ → Reader StateBlockMeta
unfolding remaining
decode_state_block_meta frame_tick = do
  slot ← uint 2
  delta ← varint
  len ← varint
  left ← remaining
  body_len ← held_len len left
  before ← remaining
  flags ← uint 1
  reference ← reference_of (not (flags % 2 == 0)) (frame_tick - delta)
  now ← remaining
  rest ← len_left body_len (before - now)
  pure (record {
    slot = slot;
    tick = frame_tick - delta;
    full = not (flags % 2 == 0);
    state_lane = not (flags / 2 % 2 == 0);
    reference_tick = reference;
    body_len = rest;
  })

unfoldable pub skip_state_block_body : StateBlockMeta → Reader (Unit {0})
skip_state_block_body meta = bytes meta.body_len >>= λ _. pure tt

-- The masked branch of the encoder, and the full one.
unfoldable pub delta_body : Float → List PropSchema → ℕ → ℕ → Bytes → Bytes → Bool → Bytes
delta_body f props entity_tick reference_tick base row lane =
    let mask = changed_mask props base row in
    written (
      le_bytes 1 (lane_flag lane)
      ∷ varint_bytes (entity_tick - reference_tick)
      ∷ bitmask mask
      ∷ write_masked_wire f props mask row
      ∷ [])

unfoldable pub full_body : Float → List PropSchema → Bytes → Bool → Bytes
full_body f props row lane = written (le_bytes 1 (lane_flag lane + 1) ∷ encode_row f props row ∷ [])

-- The body, and whether it is a full row.
unfoldable pub state_body :
    Float → List PropSchema → ℕ → Option (ℕ × Bytes) → Bytes → Bool → Bytes × Bool
unfolding delta_body full_body
state_body f props entity_tick none row lane = (full_body f props row lane, true)
state_body f props entity_tick (some (reference_tick, base)) row lane =
    if ltb reference_tick entity_tick
    then (delta_body f props entity_tick reference_tick base row lane, false)
    else (full_body f props row lane, true)

-- `encode_state_block`: what it appends, and its answer.
unfoldable pub encode_state_block :
    Float → List PropSchema → ℕ → ℕ → ℕ → Option (ℕ × Bytes) → Bytes → Bool → Bytes × Bool
unfolding state_body
encode_state_block f props slot frame_tick entity_tick reference row lane =
    let body = state_body f props entity_tick reference row lane in
    (
      written (
          le_bytes 2 slot
          ∷ varint_bytes (frame_tick - entity_tick)
          ∷ varint_bytes (length body.0)
          ∷ body.0
          ∷ []),
      body.1,
    )

abbrev pub is_read : Option ℕ → Bool
is_read none = false
is_read (some n) = true

-- The last match of `decode_state_block_into`.
abbrev pub all_consumed : ℕ → Option ℕ × Bytes → Reader (Bool × Bytes)
all_consumed len (none, row) = throw unexpected_eof
all_consumed len (some consumed, row) = pure (consumed == len, row)

-- The masked branch, behind the mask and the payload.
unfoldable pub apply_delta :
    Float → List PropSchema → List Bool → Option Bytes → Bytes → Bytes → Reader (Bool × Bytes)
apply_delta f props mask none payload out = pure (false, out)
apply_delta f props mask (some base) payload out =
    if not (length base == length out)
    then pure (false, out)
    else all_consumed (length payload) (apply_masked_wire f props mask payload base)

-- The full branch, behind the payload.
unfoldable pub read_full : Float → List PropSchema → Bytes → Bytes → Bool × Bytes
read_full f props payload out =
    let d = decode_row f props payload out in
    if length payload == wire_row_stride props then (is_read d.0, d.1) else (false, out)

abbrev pub mask_room : ℕ → ℕ → Reader ℕ
mask_room mask_bytes len =
    if ltb len mask_bytes then throw unexpected_eof else pure (len - mask_bytes)

unfoldable pub read_delta :
    Float → ℕ → List PropSchema → Option Bytes → Bytes → Reader (Bool × Bytes)
unfolding apply_delta
read_delta f body_len props base out = do
  len ← mask_room (mask_len (length props)) body_len
  mask ← bitmask_into (length props)
  payload ← bytes len
  apply_delta f props mask base payload out

-- `decode_state_block_into`: the answer, and `out_row` after it.
unfoldable pub decode_state_block_into :
    Float → StateBlockMeta → List PropSchema → Option Bytes → Bytes → Reader (Bool × Bytes)
unfolding read_delta read_full
decode_state_block_into f meta props base out =
    if meta.full
    then (bytes meta.body_len >>= λ payload. pure (read_full f props payload out))
    else read_delta f meta.body_len props base out

pub record InputBlockMeta : Type 0 where
  pub slot : ℕ
  pub newest_tick : ℕ
  pub count : ℕ
  pub body_len : ℕ

unfoldable pub encode_rows : Float → List PropSchema → List Bytes → Bytes
encode_rows f props [] = []
encode_rows f props (row ∷ rows) = encode_row f props row ++ encode_rows f props rows

-- The ticks are below 2^63, where `as i64` keeps them.
unfoldable pub encode_input_block : Float → List PropSchema → ℕ → ℕ → ℕ → List Bytes → Bytes
unfolding encode_rows
encode_input_block f props slot frame_tick newest_tick rows =
    let count = min (length rows) 255 in
    written (
      le_bytes 2 slot
      ∷ varint_bytes (zigzag_code (sub_ℕ frame_tick newest_tick))
      ∷ varint_bytes (wire_row_stride props * count + 1)
      ∷ le_bytes 1 count
      ∷ encode_rows f props (take 255 rows)
      ∷ [])

abbrev pub newest_from : ℕ → ℤ → ℕ
newest_from frame_tick (pos n) = frame_tick - n
newest_from frame_tick (negsuc n) = saturating_add frame_tick (n + 1)

unfoldable pub decode_input_block_meta : ℕ → Reader InputBlockMeta
unfolding remaining
decode_input_block_meta frame_tick = do
  slot ← uint 2
  delta ← zigzag
  len ← varint
  left ← remaining
  body_len ← held_len len left
  count ← uint 1
  pure (record {
    slot = slot;
    newest_tick = newest_from frame_tick delta;
    count = count;
    body_len = body_len - 1;
  })

-- The reader is the bytes behind its cursor. A product that overflows is no body's length.
unfoldable pub input_block_row : Bytes → InputBlockMeta → ℕ → ℕ → Option Bytes
input_block_row buf meta wire_stride index =
    if wire_stride == 0 || not (ltb index meta.count)
    then none
    else if not (wire_stride * meta.count == meta.body_len)
    then none
    else peek_bytes (wire_stride * index) wire_stride buf

unfoldable pub skip_input_block_body : InputBlockMeta → Reader (Unit {0})
skip_input_block_body meta = bytes meta.body_len >>= λ _. pure tt
