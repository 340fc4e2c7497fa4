-- ===== src/Wire/Block/Receive.antt =====
-- The metadata of a state block reads back, and what a receiver does with a block.
use orbitnet.Base.{
  ℕ, ◌+◌, ◌-◌, ◌/◌, ◌%◌, ◌^◌, ◌≤◌, ◌<◌, ◌≡◌, refl, ◌∙◌, ap, Bool, true, false, not, ◌||◌, Option,
  none, some, List, [], ◌∷◌, ◌++◌, ltb, ◌==◌, length, length-append, arith,
}
use mathlib.Core.List.{append_assoc, append-nil}
use orbitnet.Wire.Bytes.{Bytes, got, Reader, after, ◌>>=◌, pure, written, le_bytes, varint_bytes}
use orbitnet.Wire.Bytes.Laws.{Reads, after-Reads, Reads-uint, length-le_bytes}
use orbitnet.Wire.Bytes.Varint.{Reads-varint}
use orbitnet.Schema.{PropSchema}
use orbitnet.Quant.Ss3.{Float}
use orbitnet.Wire.Block.{
  StateBlockMeta, remaining, held_len, len_left, reference_of, decode_state_block_meta, mask_room,
  decode_state_block_into,
}

module _ {ℓ} {B : Type ℓ} (f : ℕ → Reader B) (buf : Bytes) where
  pub remaining_then : (remaining >>= f) buf ≡ f (length buf) buf
  unfolding ◌>>=◌ remaining
  remaining_then = refl

  pub held_then : (len left : ℕ) → len ≤ left → 1 ≤ len → (held_len len left >>= f) buf ≡ f len buf
  unfolding ◌>>=◌ pure
  held_then len left h k =
      let held : (ltb left len || ltb len 1) ≡ false = ground arith in rw held refl

  left_then :
      (len consumed : ℕ)
      → consumed ≤ len
      → (len_left len consumed >>= f) buf ≡ f (len - consumed) buf
  unfolding ◌>>=◌ pure
  left_then len consumed h = let enough : ltb len consumed ≡ false = ground arith in rw enough refl

  pub room_then : (room len : ℕ) → room ≤ len → (mask_room room len >>= f) buf ≡ f (len - room) buf
  unfolding ◌>>=◌ pure
  room_then room len h = let enough : ltb len room ≡ false = ground arith in rw enough refl

-- The metadata of a block with these flags, this reference and this much behind them.
abbrev pub meta_of : ℕ → ℕ → ℕ → Option ℕ → ℕ → StateBlockMeta
meta_of slot tick flags reference len = record {
  slot = slot;
  tick = tick;
  full = not (flags % 2 == 0);
  state_lane = not (flags / 2 % 2 == 0);
  reference_tick = reference;
  body_len = len;
}

decode_meta-parts :
    (frame_tick slot delta flags : ℕ) (ref_bytes tail rest : Bytes) (reference : Option ℕ)
    → slot < 2 ^ 16
    → delta < 2 ^ 64
    → flags < 256
    → 1 + length ref_bytes + length tail < 2 ^ 64
    → Reads (reference_of (not (flags % 2 == 0)) (frame_tick - delta)) ref_bytes reference
    → decode_state_block_meta frame_tick (
        le_bytes 2 slot
        ++ (varint_bytes delta
            ++ (varint_bytes (1 + length ref_bytes + length tail)
                ++ (le_bytes 1 flags ++ (ref_bytes ++ (tail ++ rest))))))
      ≡ got (meta_of slot (frame_tick - delta) flags reference (length tail)) (tail ++ rest)
unfolding decode_state_block_meta pure
decode_meta-parts frame_tick slot delta flags ref_bytes tail rest reference hs hd hf hl hr =
    let len = 1 + length ref_bytes + length tail in
    let behind = ref_bytes ++ (tail ++ rest) in
    let body = le_bytes 1 flags ++ behind in
    let body_size = length-append (le_bytes 1 flags) behind in
    let behind_size = length-append ref_bytes (tail ++ rest) in
    let tail_size = length-append tail rest in
    let one = length-le_bytes 1 flags in
    let consumed : length body - length (tail ++ rest) ≡ 1 + length ref_bytes =
      omega (arith, body_size, behind_size, one) in
    after-Reads (Reads-uint 2 slot (omega (arith, hs))) _
      (varint_bytes delta ++ (varint_bytes len ++ body))
    ∙ after-Reads (Reads-varint delta hd) _ (varint_bytes len ++ body)
    ∙ after-Reads (Reads-varint len hl) _ body
    ∙ remaining_then _ body
    ∙ held_then _ body len (length body) (omega (arith, body_size, behind_size, tail_size, one))
        (omega arith)
    ∙ remaining_then _ body
    ∙ after-Reads (Reads-uint 1 flags (omega (arith, hf))) _ behind
    ∙ after-Reads hr _ (tail ++ rest)
    ∙ remaining_then _ (tail ++ rest)
    ∙ left_then _ (tail ++ rest) len (length body - length (tail ++ rest)) (omega (arith, consumed))
    ∙ ap (λ n. got (meta_of slot (frame_tick - delta) flags reference n) (tail ++ rest))
        (omega (arith, consumed))

-- The row that a reference stands on, when it is held.
abbrev pub base_of : (ℕ → Option Bytes) → Option ℕ → Option Bytes
base_of held none = none
base_of held (some tick) = held tick

-- A receiver: the metadata, then the body over the row it holds for the reference.
unfoldable pub received :
    Float
    → List PropSchema
    → ℕ
    → (ℕ → Option Bytes)
    → Bytes
    → Reader (ℕ × ℕ × Bool × Bool × Bool × Bytes)
received f props frame_tick held out = do
  meta ← decode_state_block_meta frame_tick
  r ← decode_state_block_into f meta props (base_of held meta.reference_tick) out
  pure (meta.slot, meta.tick, meta.full, meta.state_lane, r.0, r.1)

-- The block in parts: a body of one byte of flags, a reference and what is behind them.
joined :
    (a b c d e t rest : Bytes)
    → (a ++ (b ++ (c ++ ((d ++ (e ++ t)) ++ [])))) ++ rest
      ≡ a ++ (b ++ (c ++ (d ++ (e ++ (t ++ rest)))))
joined a b c d e t rest = simp (append_assoc, append-nil)

after_got {ℓ κ} :
    {A : Type ℓ} {B : Type κ} (m : Reader A) {buf rest : Bytes} {a : A}
    → m buf ≡ got a rest
    → (k : A → Reader B) → (m >>= k) buf ≡ k a rest
unfolding ◌>>=◌
after_got m e k = ap (λ o. after o k) e

-- A block whose reference and tail read back reads back.
pub received-parts :
    (f : Float) (props : List PropSchema) (frame_tick : ℕ) (held : ℕ → Option Bytes) (out : Bytes)
    (slot delta flags : ℕ) (ref_bytes tail row : Bytes) (reference : Option ℕ)
    → slot < 2 ^ 16
    → delta < 2 ^ 64
    → flags < 256
    → length (le_bytes 1 flags ++ (ref_bytes ++ tail)) < 2 ^ 64
    → Reads (reference_of (not (flags % 2 == 0)) (frame_tick - delta)) ref_bytes reference
    → Reads
        (decode_state_block_into f
          (meta_of slot (frame_tick - delta) flags reference (length tail))
          props
          (base_of held reference)
          out)
        tail
        (true, row)
    → Reads
        (received f props frame_tick held out)
        (written (
          le_bytes 2 slot
          ∷ varint_bytes delta
          ∷ varint_bytes (length (le_bytes 1 flags ++ (ref_bytes ++ tail)))
          ∷ (le_bytes 1 flags ++ (ref_bytes ++ tail))
          ∷ []))
        (slot, frame_tick - delta, not (flags % 2 == 0), not (flags / 2 % 2 == 0), true, row)
unfolding received pure
received-parts f props frame_tick held out slot delta flags ref_bytes tail row reference hs hd hf hl
      hr ht =
    record {
      reads = λ rest.
          let body = le_bytes 1 flags ++ (ref_bytes ++ tail) in
          let one = length-append (le_bytes 1 flags) (ref_bytes ++ tail) in
          let two = length-append ref_bytes tail in
          let size : length body ≡ 1 + length ref_bytes + length tail =
            omega (arith, one, two, length-le_bytes 1 flags) in
          ap (received f props frame_tick held out) (
            joined (le_bytes 2 slot) (varint_bytes delta) (varint_bytes (length body))
              (le_bytes 1 flags) ref_bytes tail rest)
          ∙ ap
              (λ n. received f props frame_tick held out (
                le_bytes 2 slot
                ++ (varint_bytes delta
                    ++ (varint_bytes n ++ (le_bytes 1 flags ++ (ref_bytes ++ (tail ++ rest)))))))
              size
          ∙ after_got (decode_state_block_meta frame_tick)
              (decode_meta-parts frame_tick slot delta flags ref_bytes tail rest reference hs hd hf
                (omega (arith, size, hl)) hr)
              _
          ∙ after-Reads ht _ rest;
    }
