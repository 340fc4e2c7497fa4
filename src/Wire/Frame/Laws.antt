-- ===== src/Wire/Frame/Laws.antt =====
-- Headers read back.
use orbitnet.Base.{ℕ, ◌^◌, ◌<◌, ◌≡◌, [], arith}
use orbitnet.Base.Int.{ℤ, pos, negsuc, sub_ℕ}
use orbitnet.Wire.Bytes.{pure, throw}
use orbitnet.Wire.Bytes.Laws.{Reads, ◌then⟨◌⟩◌, Reads-pure, Reads-uint, Reads-i8, IsI8}
use orbitnet.Wire.Bytes.Hostile.{
  Answers, ◌giving⟨◌⟩◌, Answers-pure, Answers-uint, Answers-i8, Answers-varint_u32, Answers-zigzag,
}
use orbitnet.Wire.Bytes.Varint.{Reads-varint_u32, Reads-zigzag, IsI64}
use orbitnet.Wire.Frame.{
  FrameKind, tag, from_tag, server_snapshot, client_input, ping, pong, challenge, welcome,
  entity_manifest, entity_manifest_delta, interest_table, FrameHeader, encode_header, ack_from,
  decode_header,
}

-- The widths of the fields.
pub record FitsHeader (h : FrameHeader) : Type 0 where
  pub tick : h.tick < 2 ^ 32
  pub ack_tick : h.ack_tick < 2 ^ 32
  pub ack_bits : h.ack_bits < 2 ^ 32
  pub ack_token : h.ack_token < 2 ^ 32
  pub margin_ticks : IsI8 h.margin_ticks
  pub flags : h.flags < 2 ^ 8
  pub entity_count : h.entity_count < 2 ^ 32

pub tag_small : (k : FrameKind) → tag k < 256
unfolding tag
tag_small k = ground arith

pub Reads-from_tag : (k : FrameKind) → Reads (from_tag (tag k)) [] k
unfolding from_tag tag
Reads-from_tag server_snapshot = Reads-pure _
Reads-from_tag client_input = Reads-pure _
Reads-from_tag ping = Reads-pure _
Reads-from_tag pong = Reads-pure _
Reads-from_tag challenge = Reads-pure _
Reads-from_tag welcome = Reads-pure _
Reads-from_tag entity_manifest = Reads-pure _
Reads-from_tag entity_manifest_delta = Reads-pure _
Reads-from_tag interest_table = Reads-pure _

ack_from-sub_ℕ : (t a : ℕ) → a < 2 ^ 32 → ack_from t (sub_ℕ t a) ≡ a
unfolding ack_from
ack_from-sub_ℕ t a h = ground arith

sub_ℕ-IsI64 : (t a : ℕ) → t < 2 ^ 32 → a < 2 ^ 32 → IsI64 (sub_ℕ t a)
sub_ℕ-IsI64 t a ht ha = ground arith

-- A header whose fields fit their widths reads back, whatever follows it.
pub Reads-decode_header : (h : FrameHeader) → FitsHeader h → Reads decode_header (encode_header h) h
unfolding decode_header encode_header
Reads-decode_header h fits =
    Reads-uint 1 (tag h.kind) (tag_small h.kind)
    then⟨ _ ⟩ Reads-from_tag h.kind
    then⟨ _ ⟩ Reads-varint_u32 h.tick fits.tick
    then⟨ _ ⟩
      Reads-zigzag (sub_ℕ h.tick h.ack_tick) (sub_ℕ-IsI64 h.tick h.ack_tick fits.tick fits.ack_tick)
    then⟨ _ ⟩ Reads-uint 4 h.ack_bits fits.ack_bits
    then⟨ _ ⟩ Reads-uint 4 h.ack_token fits.ack_token
    then⟨ _ ⟩ Reads-i8 h.margin_ticks fits.margin_ticks
    then⟨ _ ⟩ Reads-uint 1 h.flags fits.flags
    then⟨ _ ⟩ Reads-varint_u32 h.entity_count fits.entity_count
    then⟨ _ ⟩ rw (ack_from-sub_ℕ h.tick h.ack_tick fits.ack_tick) (Reads-pure h)

Answers-from_tag : (t : ℕ) → Answers (from_tag t) (λ k. Unit {0})
unfolding from_tag pure throw
Answers-from_tag t = record { answers = λ buf h. ground (arith, h) }

ack_from_small : (t : ℕ) (d : ℤ) → t < 2 ^ 32 → ack_from t d < 2 ^ 32
unfolding ack_from
ack_from_small t (pos n) h = omega arith
ack_from_small t (negsuc n) h = omega arith

-- Whatever bytes arrive, a header that decodes has every field in its width.
pub Answers-decode_header : Answers decode_header FitsHeader
unfolding decode_header
Answers-decode_header = Answers-uint 1 giving⟨ _ ⟩ λ t ht. Answers-from_tag t giving⟨ _ ⟩ λ kind hk.
    Answers-varint_u32 giving⟨ _ ⟩ λ tick h1. Answers-zigzag giving⟨ _ ⟩ λ delta h2.
    Answers-uint 4 giving⟨ _ ⟩ λ ack_bits h3. Answers-uint 4 giving⟨ _ ⟩ λ ack_token h4.
    Answers-i8 giving⟨ _ ⟩ λ margin h5. Answers-uint 1 giving⟨ _ ⟩ λ flags h6.
    Answers-varint_u32 giving⟨ _ ⟩ λ count h7. Answers-pure _ FitsHeader (record {
      tick = h1;
      ack_tick = ack_from_small tick delta h1;
      ack_bits = h3;
      ack_token = h4;
      margin_ticks = h5;
      flags = h6;
      entity_count = h7;
    })
