-- ===== src/Quant/Delta.antt =====
-- A masked payload applied over a base gives the row that it was written from.
use orbitnet.Base.{
  ℕ, ◌+◌, ◌≡◌, refl, sym, ◌∙◌, ap, subst, Bool, true, false, Option, some, List, [], ◌∷◌, ◌++◌, ltb,
  length, take, drop, length-append, length-take, length-drop, length_zero, take-drop,
  take_append_at, drop_append, arith,
}
use mathlib.Core.List.{append_assoc, append-nil}
use orbitnet.Base.Rows.{slice, slice_parts, splice_parts}
use orbitnet.Wire.Bytes.{Bytes}
use orbitnet.Schema.{PropKind, QuantKind, PropSchema, stride}
use orbitnet.Schema.Layout.{Fills, Fills-le}
use orbitnet.Quant.Ss3.{Float}
use orbitnet.Quant.{
  wire_stride, encode_prop, decode_value, decode_prop, masked_wire_size, write_masked_wire,
  apply_from, apply_masked_wire, decoded_then,
}
use orbitnet.Quant.Sizes.{length-encode_prop}

-- The bytes that encoding and decoding give back as they are.
abbrev pub IsCanonical : Float → PropKind → QuantKind → Bytes → Type 0
IsCanonical f kind quant cell = decode_value f kind quant (encode_prop f kind quant cell) ≡ cell

-- The part of a row from the first of the properties on: what the mask leaves out is the same in
-- both rows, and what it sends is canonical in the second.
abbrev pub Meets : Float → List PropSchema → List Bool → Bytes → Bytes → Type 0
Meets f [] ms base row = base ≡ row
Meets f (p ∷ ps) [] base row = base ≡ row
Meets f (p ∷ ps) (true ∷ ms) base row =
    IsCanonical f p.kind p.quant (take (stride p.kind) row)
    × Meets f ps ms (drop (stride p.kind) base) (drop (stride p.kind) row)
Meets f (p ∷ ps) (false ∷ ms) base row =
    (take (stride p.kind) base ≡ take (stride p.kind) row)
    × Meets f ps ms (drop (stride p.kind) base) (drop (stride p.kind) row)

pub nothing_left : (xs old : Bytes) → length old ≡ length xs → xs ++ drop (length xs) old ≡ xs
nothing_left xs old h =
    let left = length-drop (length xs) old (omega (arith, h)) in
    ap (λ r. xs ++ r) (length_zero (drop (length xs) old) (omega (arith, left, h))) ∙ append-nil xs

module _ (f : Float) where
  -- A canonical cell reads back, whatever follows it and whatever it is written over.
  pub decode_prop-encode_prop :
      (kind : PropKind) (quant : QuantKind) (cell more old : Bytes)
      → length cell ≡ stride kind
      → length old ≡ stride kind
      → IsCanonical f kind quant cell
      → decode_prop f kind quant (encode_prop f kind quant cell ++ more) old
        ≡ (some (wire_stride kind quant), cell)
  unfolding decode_prop
  decode_prop-encode_prop kind quant cell more old hc ho canonical =
      let wire = encode_prop f kind quant cell in
      let width = length-encode_prop f kind quant cell hc in
      let total = length-append wire more in
      let enough : ltb (length (wire ++ more)) (wire_stride kind quant) ≡ false =
        ground (arith, width, total) in
      let value = take_append_at (wire_stride kind quant) wire more (sym width) in
      rw (enough, value, canonical, nothing_left cell old (ho ∙ sym hc)) refl

  -- One property that is sent.
  apply_from_sent :
      (p : PropSchema) (ps : List PropSchema) (ms : List Bool) (done w pre cb tb cr : Bytes)
      → p.offset ≡ length pre
      → length cb ≡ stride p.kind
      → length cr ≡ stride p.kind
      → IsCanonical f p.kind p.quant cr
      → apply_from f
          (p ∷ ps)
          (true ∷ ms)
          (length done)
          (done ++ (encode_prop f p.kind p.quant cr ++ w))
          (pre ++ (cb ++ tb))
        ≡ apply_from f ps ms
            (length done + wire_stride p.kind p.quant)
            (done ++ (encode_prop f p.kind p.quant cr ++ w))
            ((pre ++ cr) ++ tb)
  unfolding apply_from
  apply_from_sent p ps ms done w pre cb tb cr here hb hr canonical =
      let row = pre ++ (cb ++ tb) in
      let wire = encode_prop f p.kind p.quant cr ++ w in
      let old = slice_parts pre cb tb p.offset here (stride p.kind) (sym hb) in
      let decoded : decode_prop f p.kind p.quant (drop (length done) (done ++ wire))
            (slice row p.offset (stride p.kind))
          ≡ (some (wire_stride p.kind p.quant), cr) =
        ap (λ b. decode_prop f p.kind p.quant b (slice row p.offset (stride p.kind)))
          (drop_append done wire)
        ∙ ap (decode_prop f p.kind p.quant wire) old
        ∙ decode_prop-encode_prop p.kind p.quant cr w cb hr hb canonical in
      let total = length-append pre (cb ++ tb) in
      let tail = length-append cb tb in
      let room : ltb (length row) (p.offset + stride p.kind) ≡ false =
        ground (arith, total, tail, here, hb) in
      let next = λ (n : ℕ) (r : Bytes). apply_from f ps ms (length done + n) (done ++ wire) r in
      rw room (
        ap (λ d. decoded_then row p.offset d next) decoded
        ∙ ap (next (wire_stride p.kind p.quant))
            (splice_parts pre cb tb p.offset here cr (hr ∙ sym hb)))

  -- A row, split behind its first cell.
  pub regrouped : (pre row : Bytes) (n : ℕ) → (pre ++ take n row) ++ drop n row ≡ pre ++ row
  regrouped pre row n =
      append_assoc pre (take n row) (drop n row) ∙ ap (λ r. pre ++ r) (take-drop n row)

  nothing_sent :
      (n : ℕ) (pre base row : Bytes)
      → base ≡ row
      → ◌≡◌ {A = Option ℕ × Bytes} (some n, pre ++ base) (some (n + 0), pre ++ row)
  nothing_sent n pre base row e =
      let same : n ≡ n + 0 = omega arith in λ i. (some (same i), pre ++ e i)

  apply_from-write :
      (ps : List PropSchema) (ms : List Bool) (start end : ℕ) (done pre base row : Bytes)
      → Fills start ps end
      → start ≡ length pre
      → start + length base ≡ end
      → start + length row ≡ end
      → Meets f ps ms base row
      → apply_from f ps ms
          (length done)
          (done ++ write_masked_wire f ps ms (pre ++ row))
          (pre ++ base)
        ≡ (some (length done + masked_wire_size ps ms), pre ++ row)
  unfolding apply_from write_masked_wire masked_wire_size
  apply_from-write [] ms start end done pre base row fills here hb hr meets =
      nothing_sent (length done) pre base row meets
  apply_from-write (p ∷ ps) [] start end done pre base row fills here hb hr meets =
      nothing_sent (length done) pre base row meets
  apply_from-write (p ∷ ps) (false ∷ ms) start end done pre base row fills here hb hr meets =
      let s = stride p.kind in
      let room = Fills-le (start + s) ps end fills.2 in
      let cell = take s row in
      let size = length-take s row (omega (arith, room, hr)) in
      let whole = length-append pre cell in
      let base_left = length-drop s base (omega (arith, room, hb)) in
      let row_left = length-drop s row (omega (arith, room, hr)) in
      let rest =
        apply_from-write ps ms (start + s) end done (pre ++ cell) (drop s base) (drop s row) fills.2
          (omega (arith, whole, size, here)) (omega (arith, base_left, hb))
          (omega (arith, row_left, hr)) meets.1 in
      let new_base : (pre ++ cell) ++ drop s base ≡ pre ++ base =
        sym (ap (λ c. (pre ++ c) ++ drop s base) meets.0) ∙ regrouped pre base s in
      subst
        (λ r.
          apply_from f ps ms (length done) (done ++ write_masked_wire f ps ms r) (pre ++ base)
          ≡ (some (length done + masked_wire_size ps ms), r))
        (regrouped pre row s)
        (subst
          (λ b.
            apply_from f ps ms (length done)
              (done ++ write_masked_wire f ps ms ((pre ++ cell) ++ drop s row)) b
            ≡ (some (length done + masked_wire_size ps ms), (pre ++ cell) ++ drop s row))
          new_base rest)
  apply_from-write (p ∷ ps) (true ∷ ms) start end done pre base row fills here hb hr meets =
      let s = stride p.kind in
      let room = Fills-le (start + s) ps end fills.2 in
      let cell = take s row in
      let old = take s base in
      let size = length-take s row (omega (arith, room, hr)) in
      let old_size = length-take s base (omega (arith, room, hb)) in
      let wire = encode_prop f p.kind p.quant cell in
      let wire_size = length-encode_prop f p.kind p.quant cell size in
      let w = write_masked_wire f ps ms (pre ++ row) in
      let width = wire_stride p.kind p.quant in
      let whole = length-append pre cell in
      let base_left = length-drop s base (omega (arith, room, hb)) in
      let row_left = length-drop s row (omega (arith, room, hr)) in
      let at = fills.0 ∙ here in
      let sent : slice (pre ++ row) p.offset s ≡ cell =
        ap (λ r. slice (pre ++ r) p.offset s) (sym (take-drop s row))
        ∙ slice_parts pre cell (drop s row) p.offset at s (sym size) in
      let rest =
        apply_from-write ps ms (start + s) end (done ++ wire) (pre ++ cell) (drop s base)
          (drop s row) fills.2 (omega (arith, whole, size, here)) (omega (arith, base_left, hb))
          (omega (arith, row_left, hr)) meets.1 in
      let cursor : length done + width ≡ length (done ++ wire) =
        omega (arith, length-append done wire, wire_size) in
      let total : length (done ++ wire) + masked_wire_size ps ms
          ≡ length done + (width + masked_wire_size ps ms) =
        omega (arith, cursor) in
      ap
        (λ c.
          apply_from f (p ∷ ps) (true ∷ ms) (length done)
            (done ++ (encode_prop f p.kind p.quant c ++ w)) (pre ++ base))
        sent
      ∙ ap (λ b. apply_from f (p ∷ ps) (true ∷ ms) (length done) (done ++ (wire ++ w)) (pre ++ b))
          (sym (take-drop s base))
      ∙ apply_from_sent p ps ms done w pre old (drop s base) cell at old_size size meets.0
      ∙ ap (λ n. apply_from f ps ms n (done ++ (wire ++ w)) ((pre ++ cell) ++ drop s base)) cursor
      ∙ ap (λ b. apply_from f ps ms (length (done ++ wire)) b ((pre ++ cell) ++ drop s base))
          (sym (append_assoc done wire w))
      ∙ ap
          (λ r.
            apply_from f ps ms (length (done ++ wire))
              ((done ++ wire) ++ write_masked_wire f ps ms r) ((pre ++ cell) ++ drop s base))
          (sym (regrouped pre row s))
      ∙ rest
      ∙ (λ i. (some (total i), regrouped pre row s i))

  -- What is written of a row under a mask and applied over a base gives the row, and consumes all.
  pub apply_masked_wire-write :
      (props : List PropSchema) (mask : List Bool) (size : ℕ) (base row : Bytes)
      → Fills 0 props size
      → length base ≡ size
      → length row ≡ size
      → Meets f props mask base row
      → apply_masked_wire f props mask (write_masked_wire f props mask row) base
        ≡ (some (masked_wire_size props mask), row)
  unfolding apply_masked_wire
  apply_masked_wire-write props mask size base row fills hb hr meets =
      apply_from-write props mask 0 size [] [] base row fills refl (omega (arith, hb))
        (omega (arith, hr)) meets
      ∙ (λ i. (some (none_before (masked_wire_size props mask) i), row))
    where
      none_before : (n : ℕ) → 0 + n ≡ n
      none_before n = omega arith
