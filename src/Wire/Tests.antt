-- ===== src/Wire/Tests.antt =====
-- Numbers and headers on the wire at concrete inputs.
use orbitnet.Base.{◌^◌, ◌-◌, ◌≤◌, ◌<◌, ◌≢◌, ◌⊎◌, ◌++◌, ◌≡◌, refl, [], ◌∷◌, arith, some, none}
use orbitnet.Base.Int.{pos, negsuc}
use orbitnet.Wire.Bytes.{
  got, fail, varint_overflow, unknown_frame_kind, varint, varint_from, varint_bytes, varint_loop,
  zigzag, zigzag_code, peek_bytes,
}
use orbitnet.Wire.Bytes.Laws.{Reads}
use orbitnet.Wire.Bytes.Bounds.{varint_lem, Bounded}
use orbitnet.Wire.Frame.{FrameKind, tag, FrameHeader, client_input, encode_header, decode_header}
use orbitnet.Wire.Frame.Fields.{Fields, bytes_of, meant, decode_header_lem}
use orbitnet.Wire.Frame.Laws.{Reads-decode_header}

varint_runs : (varint_bytes 300 ≡ 172 ∷ 2 ∷ []) × (varint (172 ∷ 2 ∷ 9 ∷ []) ≡ got 300 (9 ∷ []))
unfolding varint_bytes varint_loop varint varint_from
varint_runs = (refl, refl)

varint_too_long :
    varint (255 ∷ 255 ∷ 255 ∷ 255 ∷ 255 ∷ 255 ∷ 255 ∷ 255 ∷ 255 ∷ 2 ∷ []) ≡ fail varint_overflow
unfolding varint varint_from
varint_too_long = refl

peek_runs :
    (peek_bytes 1 2 (7 ∷ 8 ∷ 9 ∷ []) ≡ some (8 ∷ 9 ∷ [])) × (peek_bytes 2 2 (7 ∷ 8 ∷ 9 ∷ []) ≡ none)
unfolding peek_bytes
peek_runs = (refl, refl)

-- The client acknowledges a tick ahead of the one it sends.
abbrev header : FrameHeader
header = record {
  kind = client_input;
  tick = 100;
  ack_tick = 104;
  ack_bits = 2 ^ 32 - 1;
  ack_token = 77;
  margin_ticks = negsuc 2;
  flags = 5;
  entity_count = 3;
}

Reads-decode_header_example : Reads decode_header (encode_header header) header
Reads-decode_header_example = Reads-decode_header header (record {
  tick = omega arith;
  ack_tick = omega arith;
  ack_bits = omega arith;
  ack_token = omega arith;
  margin_ticks = omega arith;
  flags = omega arith;
  entity_count = omega arith;
})

varint_lem_example :
    Reads varint (varint_bytes (2 ^ 64 - 1)) (2 ^ 64 - 1)
    × Reads zigzag (varint_bytes (zigzag_code (negsuc 4))) (negsuc 4)
    × Bounded (2 ^ 64) (255 ∷ 1 ∷ []) (varint (255 ∷ 1 ∷ []))
varint_lem_example = varint_lem (2 ^ 64 - 1) (negsuc 4) (255 ∷ 1 ∷ []) (omega arith) (omega arith)

-- A client's input, with a delta that runs below tick 0.
abbrev behind : Fields
behind = record {
  kind_tag = 2;
  tick = 100;
  ack_delta = pos (2 ^ 63 - 1);
  ack_bits = 1;
  ack_token = 77;
  margin_ticks = negsuc 2;
  flags = 5;
  entity_count = 3;
}

decode_header_lem_example :
    (((k : FrameKind) → tag k ≢ 2)
      → decode_header (bytes_of behind ++ (9 ∷ [])) ≡ fail (unknown_frame_kind 2))
    × ((k : FrameKind)
        → tag k ≡ 2
        → (2 ^ 32 ≤ 100) ⊎ (2 ^ 32 ≤ 3)
        → decode_header (bytes_of behind ++ (9 ∷ [])) ≡ fail varint_overflow)
    × ((k : FrameKind)
        → tag k ≡ 2
        → 100 < 2 ^ 32
        → 3 < 2 ^ 32
        → decode_header (bytes_of behind ++ (9 ∷ [])) ≡ got (meant k behind) (9 ∷ []))
decode_header_lem_example = decode_header_lem behind (9 ∷ []) (record {
  kind_tag = omega arith;
  tick = omega arith;
  ack_delta = omega arith;
  ack_bits = omega arith;
  ack_token = omega arith;
  margin_ticks = omega arith;
  flags = omega arith;
  entity_count = omega arith;
})
