-- ===== src/Wire/Frame/Fields.antt =====
-- What the reader of a header makes of the fields on the wire, those too wide for it included.
use orbitnet.Base.{
  ℕ, ◌+◌, ◌-◌, ◌^◌, ◌≤◌, ◌<◌, ◌≡◌, ◌≢◌, ◌⊎◌, ap, ◌∙◌, subst, min, [], ◌∷◌, ◌++◌, u32_max, inl, inr,
  ltb_cases, arith,
}
use mathlib.Core.List.{append_assoc}
use orbitnet.Base.Int.{ℤ, pos, negsuc, pos_part, neg_part}
use orbitnet.Wire.Bytes.{
  Bytes, CodecError, varint_overflow, unknown_frame_kind, written, got, fail, Reader, after, ◌>>=◌,
  pure, throw, le_bytes, i8_code, varint_bytes, varint_u32, zigzag_code,
}
use orbitnet.Wire.Bytes.Laws.{Reads, ◌then⟨◌⟩◌, Reads-pure, Reads-uint, Reads-i8, IsI8}
use orbitnet.Wire.Bytes.Varint.{Reads-varint, Reads-varint_u32, Reads-zigzag, IsI64}
use orbitnet.Wire.Frame.{
  FrameKind, tag, from_tag, server_snapshot, client_input, ping, pong, challenge, welcome,
  entity_manifest, entity_manifest_delta, interest_table, FrameHeader, ack_from, decode_header,
}
use orbitnet.Wire.Frame.Laws.{Reads-from_tag}

-- `m` refuses every buffer that starts with `bs`, with this error.
record Fails {ℓ} {A : Type ℓ} (m : Reader A) (bs : Bytes) (e : CodecError) : Type ℓ where
  fails : (rest : Bytes) → m (bs ++ rest) ≡ fail e

module _ {ℓ κ} {A : Type ℓ} {B : Type κ} where
  -- A read, and then a refusal.
  infixr 30 ◌then_fails⟨◌⟩◌
  ◌then_fails⟨◌⟩◌ :
      {m : Reader A} {bs cs : Bytes} {a : A} {e : CodecError}
      → Reads m bs a
      → (f : A → Reader B) → Fails (f a) cs e
      → Fails (m >>= f) (bs ++ cs) e
  unfolding ◌>>=◌
  ◌then_fails⟨◌⟩◌ {bs = bs} {cs = cs} r f s = record {
    fails = λ rest.
        rw (append_assoc bs cs rest) (ap (λ o. after o f) (r.reads (cs ++ rest)) ∙ s.fails rest);
  }

  -- What follows a refusal is not read.
  Fails-bind :
      (m : Reader A) (f : A → Reader B) (bs cs : Bytes) (e : CodecError)
      → Fails m bs e
      → Fails (m >>= f) (bs ++ cs) e
  unfolding ◌>>=◌
  Fails-bind m f bs cs e s = record {
    fails = λ rest. rw (append_assoc bs cs rest) (ap (λ o. after o f) (s.fails (cs ++ rest)));
  }

Fails-varint_u32 :
    (v : ℕ) → 2 ^ 32 ≤ v → v < 2 ^ 64 → Fails varint_u32 (varint_bytes v) varint_overflow
unfolding varint_u32 ◌>>=◌ pure throw
Fails-varint_u32 v wide h = record {
  fails = λ rest. rw ((Reads-varint v h).reads rest) (ground (arith, wide));
}

Fails-from_tag :
    (t : ℕ) → ((k : FrameKind) → tag k ≢ t) → Fails (from_tag t) [] (unknown_frame_kind t)
unfolding from_tag tag throw pure
Fails-from_tag t h = record {
  fails = λ rest. ground (
    arith,
    h server_snapshot,
    h client_input,
    h ping,
    h pong,
    h challenge,
    h welcome,
    h entity_manifest,
    h entity_manifest_delta,
    h interest_table,
  );
}

-- The fields of a header as the wire carries them.
pub record Fields : Type 0 where
  pub kind_tag : ℕ
  pub tick : ℕ
  pub ack_delta : ℤ
  pub ack_bits : ℕ
  pub ack_token : ℕ
  pub margin_ticks : ℤ
  pub flags : ℕ
  pub entity_count : ℕ

abbrev pub bytes_of : Fields → Bytes
bytes_of w = written (
    le_bytes 1 w.kind_tag
    ∷ varint_bytes w.tick
    ∷ varint_bytes (zigzag_code w.ack_delta)
    ∷ le_bytes 4 w.ack_bits
    ∷ le_bytes 4 w.ack_token
    ∷ le_bytes 1 (i8_code w.margin_ticks)
    ∷ le_bytes 1 w.flags
    ∷ varint_bytes w.entity_count
    ∷ [])

-- The widths of the wire: a varint holds a u64, and a zigzag varint an i64.
pub record FitsWire (w : Fields) : Type 0 where
  pub kind_tag : w.kind_tag < 2 ^ 8
  pub tick : w.tick < 2 ^ 64
  pub ack_delta : IsI64 w.ack_delta
  pub ack_bits : w.ack_bits < 2 ^ 32
  pub ack_token : w.ack_token < 2 ^ 32
  pub margin_ticks : IsI8 w.margin_ticks
  pub flags : w.flags < 2 ^ 8
  pub entity_count : w.entity_count < 2 ^ 64

-- The header that the fields mean: the acknowledged tick is the tick less the delta, held between 0
-- and `u32::MAX`.
abbrev pub meant : FrameKind → Fields → FrameHeader
meant k w = record {
  kind = k;
  tick = w.tick;
  ack_tick = min (w.tick + neg_part w.ack_delta - pos_part w.ack_delta) u32_max;
  ack_bits = w.ack_bits;
  ack_token = w.ack_token;
  margin_ticks = w.margin_ticks;
  flags = w.flags;
  entity_count = w.entity_count;
}

ack_from-clamped :
    (tick : ℕ) (delta : ℤ)
    → tick < 2 ^ 32
    → ack_from tick delta ≡ min (tick + neg_part delta - pos_part delta) u32_max
unfolding ack_from
ack_from-clamped tick (pos n) h = omega (arith, h)
ack_from-clamped tick (negsuc n) h = omega (arith, h)

module _ (w : Fields) (fits : FitsWire w) where
  unknown :
      ((k : FrameKind) → tag k ≢ w.kind_tag)
      → Fails decode_header (bytes_of w) (unknown_frame_kind w.kind_tag)
  unfolding decode_header
  unknown h =
      Reads-uint 1 w.kind_tag fits.kind_tag
      then_fails⟨ _ ⟩ Fails-bind (from_tag w.kind_tag) _ [] _ _ (Fails-from_tag w.kind_tag h)

  module _ (k : FrameKind) (same : tag k ≡ w.kind_tag) where
    Reads-kind : Reads (from_tag w.kind_tag) [] k
    Reads-kind = subst (λ t. Reads (from_tag t) [] k) same (Reads-from_tag k)

    wide_tick : 2 ^ 32 ≤ w.tick → Fails decode_header (bytes_of w) varint_overflow
    unfolding decode_header
    wide_tick wide =
        Reads-uint 1 w.kind_tag fits.kind_tag
        then_fails⟨ _ ⟩ Reads-kind
        then_fails⟨ _ ⟩
          Fails-bind varint_u32 _ (varint_bytes w.tick) _ _ (Fails-varint_u32 w.tick wide fits.tick)

    wide_count :
        w.tick < 2 ^ 32 → 2 ^ 32 ≤ w.entity_count → Fails decode_header (bytes_of w) varint_overflow
    unfolding decode_header
    wide_count small wide =
        Reads-uint 1 w.kind_tag fits.kind_tag
        then_fails⟨ _ ⟩ Reads-kind
        then_fails⟨ _ ⟩ Reads-varint_u32 w.tick small
        then_fails⟨ _ ⟩ Reads-zigzag w.ack_delta fits.ack_delta
        then_fails⟨ _ ⟩ Reads-uint 4 w.ack_bits fits.ack_bits
        then_fails⟨ _ ⟩ Reads-uint 4 w.ack_token fits.ack_token
        then_fails⟨ _ ⟩ Reads-i8 w.margin_ticks fits.margin_ticks
        then_fails⟨ _ ⟩ Reads-uint 1 w.flags fits.flags
        then_fails⟨ _ ⟩
          Fails-bind varint_u32 _ (varint_bytes w.entity_count) [] _
            (Fails-varint_u32 w.entity_count wide fits.entity_count)

    narrow :
        w.tick < 2 ^ 32 → w.entity_count < 2 ^ 32 → Reads decode_header (bytes_of w) (meant k w)
    unfolding decode_header
    narrow small few =
        Reads-uint 1 w.kind_tag fits.kind_tag
        then⟨ _ ⟩ Reads-kind
        then⟨ _ ⟩ Reads-varint_u32 w.tick small
        then⟨ _ ⟩ Reads-zigzag w.ack_delta fits.ack_delta
        then⟨ _ ⟩ Reads-uint 4 w.ack_bits fits.ack_bits
        then⟨ _ ⟩ Reads-uint 4 w.ack_token fits.ack_token
        then⟨ _ ⟩ Reads-i8 w.margin_ticks fits.margin_ticks
        then⟨ _ ⟩ Reads-uint 1 w.flags fits.flags
        then⟨ _ ⟩ Reads-varint_u32 w.entity_count few
        then⟨ _ ⟩ rw (ack_from-clamped w.tick w.ack_delta small) (Reads-pure (meant k w))

-- The reader on any fields that the wire can carry, whatever follows them. A tag that is no kind's is
-- refused as an unknown kind, whatever else is wrong; under a kind's tag, a tick or a count above
-- `u32::MAX` is refused as an overflow; and all others decode, with the acknowledged tick held between
-- 0 and `u32::MAX` whatever the delta, and leave what follows.
pub decode_header_lem :
    (w : Fields) (rest : Bytes)
    → FitsWire w
    → (((k : FrameKind) → tag k ≢ w.kind_tag)
        → decode_header (bytes_of w ++ rest) ≡ fail (unknown_frame_kind w.kind_tag))
      × ((k : FrameKind)
          → tag k ≡ w.kind_tag
          → (2 ^ 32 ≤ w.tick) ⊎ (2 ^ 32 ≤ w.entity_count)
          → decode_header (bytes_of w ++ rest) ≡ fail varint_overflow)
      × ((k : FrameKind)
          → tag k ≡ w.kind_tag
          → w.tick < 2 ^ 32
          → w.entity_count < 2 ^ 32
          → decode_header (bytes_of w ++ rest) ≡ got (meant k w) rest)
decode_header_lem w rest fits = (
  λ h. (unknown w fits h).fails rest,
  λ k same wide. elim (ltb_cases w.tick (2 ^ 32)) [
    | inr (large, _) ↦ (wide_tick w fits k same large).fails rest
    | inl (small, _) ↦ (wide_count w fits k same small (ground (arith, wide, small))).fails rest
  ],
  λ k same small few. (narrow w fits k same small few).reads rest,
)
