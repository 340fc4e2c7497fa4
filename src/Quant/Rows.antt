-- ===== src/Quant/Rows.antt =====
-- Whole rows, and the mask of what changed between two.
use orbitnet.Base.{
  ℕ, suc, ◌+◌, ◌≤◌, ◌≡◌, refl, sym, ◌∙◌, ap, subst, Bool, true, false, ◌||◌, Bool-cases, none, some,
  List, [], ◌∷◌, ◌++◌, ltb, inl, inr, if◌then◌else◌, length, take, drop, length-append, length-take,
  length-drop, length_zero, take-drop, arith,
}
use mathlib.Core.Path.{fun_ext}
use orbitnet.Base.Rows.{slice, slice_parts, eqb_bytes, eqb_bytes→eq}
use orbitnet.Wire.Bytes.{Bytes}
use orbitnet.Schema.{PropSchema, stride}
use orbitnet.Schema.Layout.{Fills, Fills-le}
use orbitnet.Columnar.{changed_mask}
use orbitnet.Quant.Ss3.{Float}
use orbitnet.Quant.{
  wire_stride, wire_row_stride, encode_prop, decode_prop, decoded_then, encode_row, decode_from,
  decode_row, masked_wire_size, write_masked_wire, apply_from, apply_masked_wire,
}
use orbitnet.Quant.Sizes.{length-encode_prop}
use orbitnet.Quant.Delta.{IsCanonical, Meets, regrouped, apply_masked_wire-write}

-- Every cell of the row is canonical, for the properties from the first one on.
abbrev pub IsCanonicalRow : Float → List PropSchema → Bytes → Type 0
IsCanonicalRow f [] row = Unit
IsCanonicalRow f (p ∷ ps) row =
    IsCanonical f p.kind p.quant (take (stride p.kind) row)
    × IsCanonicalRow f ps (drop (stride p.kind) row)

abbrev pub every : List PropSchema → List Bool
every [] = []
every (p ∷ ps) = true ∷ every ps

both_empty :
    (a b : Bytes) (start end : ℕ)
    → start ≡ end
    → start + length a ≡ end
    → start + length b ≡ end
    → a ≡ b
both_empty a b start end h ha hb =
    length_zero a (omega (arith, h, ha)) ∙ sym (length_zero b (omega (arith, h, hb)))

module _ (f : Float) where
  every-Meets :
      (ps : List PropSchema) (start end : ℕ) (base row : Bytes)
      → Fills start ps end
      → start + length base ≡ end
      → start + length row ≡ end
      → IsCanonicalRow f ps row
      → Meets f ps (every ps) base row
  every-Meets [] start end base row fills hb hr c = both_empty base row start end fills hb hr
  every-Meets (p ∷ ps) start end base row fills hb hr c =
      let s = stride p.kind in
      let room = Fills-le (start + s) ps end fills.2 in
      let base_left = length-drop s base (omega (arith, room, hb)) in
      let row_left = length-drop s row (omega (arith, room, hr)) in
      (
        c.0,
        every-Meets ps (start + s) end (drop s base) (drop s row) fills.2
            (omega (arith, base_left, hb)) (omega (arith, row_left, hr)) c.1,
      )

  encode_row-every :
      (ps : List PropSchema) (row : Bytes)
      → encode_row f ps row ≡ write_masked_wire f ps (every ps) row
  unfolding encode_row write_masked_wire
  encode_row-every [] row = refl
  encode_row-every (p ∷ ps) row =
      ap (λ bs. encode_prop f p.kind p.quant (slice row p.offset (stride p.kind)) ++ bs)
        (encode_row-every ps row)

  decode_from-every :
      (ps : List PropSchema) (cursor : ℕ) (wire row : Bytes)
      → decode_from f ps cursor wire row ≡ apply_from f ps (every ps) cursor wire row
  unfolding decode_from apply_from
  decode_from-every [] cursor wire row = refl
  decode_from-every (p ∷ ps) cursor wire row =
      ap
        (λ next.
          if ltb (length row) (p.offset + stride p.kind)
          then (none, row)
          else decoded_then row p.offset
              (decode_prop f p.kind p.quant (drop cursor wire) (slice row p.offset (stride p.kind)))
              next)
        (fun_ext (λ n. fun_ext (λ r. decode_from-every ps (cursor + n) wire r)))

  masked_wire_size-every :
      (ps : List PropSchema) → masked_wire_size ps (every ps) ≡ wire_row_stride ps
  unfolding masked_wire_size wire_row_stride
  masked_wire_size-every [] = refl
  masked_wire_size-every (p ∷ ps) =
      ap (λ n. wire_stride p.kind p.quant + n) (masked_wire_size-every ps)

  -- A canonical row reads back whole over any row of its size.
  pub decode_row-encode_row :
      (props : List PropSchema) (size : ℕ) (old row : Bytes)
      → Fills 0 props size
      → length old ≡ size
      → length row ≡ size
      → IsCanonicalRow f props row
      → decode_row f props (encode_row f props row) old ≡ (some (wire_row_stride props), row)
  unfolding decode_row apply_masked_wire
  decode_row-encode_row props size old row fills ho hr c =
      decode_from-every props 0 (encode_row f props row) old
      ∙ ap (λ w. apply_from f props (every props) 0 w old) (encode_row-every props row)
      ∙ apply_masked_wire-write f props (every props) size old row fills ho hr
          (every-Meets props 0 size old row fills (omega (arith, ho)) (omega (arith, hr)) c)
      ∙ (λ i. (some (masked_wire_size-every props i), row))

  -- The first cell of a row behind what stands before it.
  first_cell :
      (pre row : Bytes) (offset n : ℕ)
      → offset ≡ length pre
      → n ≤ length row
      → slice (pre ++ row) offset n ≡ take n row
  first_cell pre row offset n here room =
      ap (λ r. slice (pre ++ r) offset n) (sym (take-drop n row))
      ∙ slice_parts pre (take n row) (drop n row) offset here n (sym (length-take n row room))

  changed_mask-Meets_from :
      (ps : List PropSchema) (start end : ℕ) (ahead before base row : Bytes)
      → Fills start ps end
      → start ≡ length ahead
      → start ≡ length before
      → start + length base ≡ end
      → start + length row ≡ end
      → IsCanonicalRow f ps row
      → Meets f ps (changed_mask ps (ahead ++ base) (before ++ row)) base row
  unfolding changed_mask
  changed_mask-Meets_from [] start end ahead before base row fills ha hp hb hr c =
      both_empty base row start end fills hb hr
  changed_mask-Meets_from (p ∷ ps) start end ahead before base row fills ha hp hb hr c =
      let s = stride p.kind in
      let room = Fills-le (start + s) ps end fills.2 in
      let base_room : s ≤ length base = omega (arith, room, hb) in
      let row_room : s ≤ length row = omega (arith, room, hr) in
      let base_left = length-drop s base base_room in
      let row_left = length-drop s row row_room in
      let rest =
        changed_mask-Meets_from ps (start + s) end (ahead ++ take s base) (before ++ take s row)
          (drop s base) (drop s row) fills.2
          (omega (arith, ha, length-append ahead (take s base), length-take s base base_room))
          (omega (arith, hp, length-append before (take s row), length-take s row row_room))
          (omega (arith, base_left, hb)) (omega (arith, row_left, hr)) c.1 in
      let rest' : Meets f ps (changed_mask ps (ahead ++ base) (before ++ row)) (drop s base)
          (drop s row) =
        subst (λ b. Meets f ps (changed_mask ps b (before ++ row)) (drop s base) (drop s row))
          (regrouped f ahead base s)
          (subst
            (λ r.
              Meets f ps (changed_mask ps ((ahead ++ take s base) ++ drop s base) r) (drop s base)
                (drop s row))
            (regrouped f before row s) rest) in
      let base_total = length-append ahead base in
      let row_total = length-append before row in
      let fits : (ltb (length (ahead ++ base)) (p.offset + s)
            || ltb (length (before ++ row)) (p.offset + s))
          ≡ false =
        ground (arith, base_total, row_total, fills.0, ha, hp, base_room, row_room) in
      let base_cell = first_cell ahead base p.offset s (fills.0 ∙ ha) base_room in
      let row_cell = first_cell before row p.offset s (fills.0 ∙ hp) row_room in
      rw (fits, base_cell, row_cell)
        (elim (Bool-cases (eqb_bytes (take s base) (take s row))) [
          | inl same ↦ rw same (eqb_bytes→eq (take s base) (take s row) same, rest')
          | inr other ↦ rw other (c.0, rest')
        ])

  pub changed_mask-Meets :
      (props : List PropSchema) (size : ℕ) (base row : Bytes)
      → Fills 0 props size
      → length base ≡ size
      → length row ≡ size
      → IsCanonicalRow f props row
      → Meets f props (changed_mask props base row) base row
  changed_mask-Meets props size base row fills hb hr c =
      changed_mask-Meets_from props 0 size [] [] base row fills refl refl (omega (arith, hb))
        (omega (arith, hr)) c

  -- The delta of a canonical row against a base of its size, applied over that base, gives the row
  -- bit for bit and consumes what was written.
  pub apply_masked_wire-changed_mask :
      (props : List PropSchema) (size : ℕ) (base row : Bytes)
      → Fills 0 props size
      → length base ≡ size
      → length row ≡ size
      → IsCanonicalRow f props row
      → apply_masked_wire f props
          (changed_mask props base row)
          (write_masked_wire f props (changed_mask props base row) row)
          base
        ≡ (some (masked_wire_size props (changed_mask props base row)), row)
  apply_masked_wire-changed_mask props size base row fills hb hr c =
      apply_masked_wire-write f props (changed_mask props base row) size base row fills hb hr
        (changed_mask-Meets props size base row fills hb hr c)

  cell_ends :
      (p : PropSchema) (start : ℕ) (pre row : Bytes)
      → start ≡ length pre
      → stride p.kind ≤ length row
      → start + stride p.kind ≡ length (pre ++ take (stride p.kind) row)
  cell_ends p start pre row hp room = omega (
    arith,
    hp,
    length-append pre (take (stride p.kind) row),
    length-take (stride p.kind) row room,
  )

  length-write_rest :
      (p : PropSchema) (ps : List PropSchema) (ms : List Bool) (start end : ℕ) (pre row : Bytes)
      → start ≡ length pre
      → stride p.kind ≤ length row
      → length (
          write_masked_wire f ps ms ((pre ++ take (stride p.kind) row) ++ drop (stride p.kind) row))
        ≡ masked_wire_size ps ms
      → length (write_masked_wire f ps ms (pre ++ row)) ≡ masked_wire_size ps ms
  length-write_rest p ps ms start end pre row hp room rest =
      subst (λ r. length (write_masked_wire f ps ms r) ≡ masked_wire_size ps ms)
        (regrouped f pre row (stride p.kind)) rest

  -- The size of a masked payload.
  length-write_from :
      (ps : List PropSchema) (ms : List Bool) (start end : ℕ) (pre row : Bytes)
      → Fills start ps end
      → start ≡ length pre
      → start + length row ≡ end
      → length (write_masked_wire f ps ms (pre ++ row)) ≡ masked_wire_size ps ms
  unfolding write_masked_wire masked_wire_size
  length-write_from [] ms start end pre row fills hp hr = refl
  length-write_from (p ∷ ps) [] start end pre row fills hp hr = refl
  length-write_from (p ∷ ps) (true ∷ ms) start end pre row fills hp hr =
      let s = stride p.kind in
      let room = Fills-le (start + s) ps end fills.2 in
      let cell = slice (pre ++ row) p.offset s in
      let found = first_cell pre row p.offset s (fills.0 ∙ hp) (omega (arith, room, hr)) in
      let size = ap (λ (c : Bytes). length c) found ∙ length-take s row (omega (arith, room, hr)) in
      omega (
        arith,
        length-append (encode_prop f p.kind p.quant cell) (write_masked_wire f ps ms (pre ++ row)),
        length-encode_prop f p.kind p.quant cell size,
        length-write_rest p ps ms start end pre row hp (omega (arith, room, hr)) (
            length-write_from ps ms (start + s) end (pre ++ take s row) (drop s row) fills.2
              (cell_ends p start pre row hp (omega (arith, room, hr)))
              (omega (arith, length-drop s row (omega (arith, room, hr)), hr))),
      )
  length-write_from (p ∷ ps) (false ∷ ms) start end pre row fills hp hr =
      let s = stride p.kind in
      let room = Fills-le (start + s) ps end fills.2 in
      length-write_rest p ps ms start end pre row hp (omega (arith, room, hr)) (
        length-write_from ps ms (start + s) end (pre ++ take s row) (drop s row) fills.2
          (cell_ends p start pre row hp (omega (arith, room, hr)))
          (omega (arith, length-drop s row (omega (arith, room, hr)), hr)))

  pub length-write_masked_wire :
      (props : List PropSchema) (mask : List Bool) (size : ℕ) (row : Bytes)
      → Fills 0 props size
      → length row ≡ size
      → length (write_masked_wire f props mask row) ≡ masked_wire_size props mask
  length-write_masked_wire props mask size row fills hr =
      length-write_from props mask 0 size [] row fills refl (omega (arith, hr))

  pub length-encode_row :
      (props : List PropSchema) (size : ℕ) (row : Bytes)
      → Fills 0 props size
      → length row ≡ size
      → length (encode_row f props row) ≡ wire_row_stride props
  length-encode_row props size row fills hr =
      ap (λ (b : Bytes). length b) (encode_row-every props row)
      ∙ length-write_masked_wire props (every props) size row fills hr
      ∙ masked_wire_size-every props

  pub length-changed_mask :
      (ps : List PropSchema) (base row : Bytes) → length (changed_mask ps base row) ≡ length ps
  unfolding changed_mask
  length-changed_mask [] base row = refl
  length-changed_mask (p ∷ ps) base row =
      elim (Bool-cases (
        ltb (length base) (p.offset + stride p.kind)
        || ltb (length row) (p.offset + stride p.kind))) [
          | inl short ↦ rw short (ap suc (length-changed_mask ps base row))
          | inr whole ↦ rw whole (ap suc (length-changed_mask ps base row))
        ]
