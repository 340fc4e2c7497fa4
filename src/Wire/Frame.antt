-- ===== src/Wire/Frame.antt =====
-- `FrameKind` and `FrameHeader` of codec.rs: what every hot frame begins with.
pub mod Laws
pub mod Fields
use orbitnet.Base.{ℕ, ◌+◌, ◌-◌, ◌^◌, min, List, [], ◌∷◌, u32_max, ◌==◌, if◌then◌else◌}
use orbitnet.Base.Int.{ℤ, pos, negsuc, sub_ℕ}
use orbitnet.Wire.Bytes.{
  Bytes, written, unknown_frame_kind, Reader, ◌>>=◌, pure, throw, le_bytes, uint, i8_code, i8,
  varint_bytes, varint_u32, zigzag_code, zigzag,
}

pub data FrameKind : Type 0 where
  server_snapshot client_input ping pong challenge welcome : FrameKind
  entity_manifest entity_manifest_delta interest_table : FrameKind

unfoldable pub tag : FrameKind → ℕ
tag server_snapshot = 1
tag client_input = 2
tag ping = 3
tag pong = 4
tag challenge = 5
tag welcome = 6
tag entity_manifest = 7
tag entity_manifest_delta = 8
tag interest_table = 9

unfoldable pub from_tag : ℕ → Reader FrameKind
from_tag t =
    if t == 1
    then pure server_snapshot
    else if t == 2
    then pure client_input
    else if t == 3
    then pure ping
    else if t == 4
    then pure pong
    else if t == 5
    then pure challenge
    else if t == 6
    then pure welcome
    else if t == 7
    then pure entity_manifest
    else if t == 8
    then pure entity_manifest_delta
    else if t == 9
    then pure interest_table
    else throw (unknown_frame_kind t)

pub record FrameHeader : Type 0 where
  pub kind : FrameKind
  pub tick : ℕ
  pub ack_tick : ℕ
  pub ack_bits : ℕ
  pub ack_token : ℕ
  pub margin_ticks : ℤ
  pub flags : ℕ
  pub entity_count : ℕ

unfoldable pub encode_header : FrameHeader → Bytes
encode_header h = written (
    le_bytes 1 (tag h.kind)
    ∷ varint_bytes h.tick
    ∷ varint_bytes (zigzag_code (sub_ℕ h.tick h.ack_tick))
    ∷ le_bytes 4 h.ack_bits
    ∷ le_bytes 4 h.ack_token
    ∷ le_bytes 1 (i8_code h.margin_ticks)
    ∷ le_bytes 1 h.flags
    ∷ varint_bytes h.entity_count
    ∷ [])

-- `tick.saturating_sub(delta).clamp(0, u32::MAX)`: the subtraction saturates above `u32::MAX` only.
unfoldable pub ack_from : ℕ → ℤ → ℕ
ack_from tick (pos n) = tick - n
ack_from tick (negsuc n) = min (tick + (n + 1)) u32_max

unfoldable pub decode_header : Reader FrameHeader
decode_header = do
  t ← uint 1
  kind ← from_tag t
  tick ← varint_u32
  ack_delta ← zigzag
  ack_bits ← uint 4
  ack_token ← uint 4
  margin_ticks ← i8
  flags ← uint 1
  entity_count ← varint_u32
  pure (record {
    kind = kind;
    tick = tick;
    ack_tick = ack_from tick ack_delta;
    ack_bits = ack_bits;
    ack_token = ack_token;
    margin_ticks = margin_ticks;
    flags = flags;
    entity_count = entity_count;
  })
