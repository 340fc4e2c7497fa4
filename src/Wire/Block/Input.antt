-- ===== src/Wire/Block/Input.antt =====
-- An input block reads back: its metadata, and each of its rows.
use orbitnet.Base.{
  ℕ, zero, suc, ◌+◌, ◌-◌, ◌*◌, ◌^◌, ◌≤◌, ◌<◌, ◌≡◌, refl, sym, ◌∙◌, ap, min, Bool, true, false, ◌||◌,
  Option, none, some, List, [], ◌∷◌, ◌++◌, ltb, ◌==◌, ==_self, ltb_cases, inl, inr, if◌then◌else◌,
  length, take, drop, get_or, drop_add, drop_append_at, take_append_at, length-append, arith, All,
}
use mathlib.Core.List.{append_assoc, append-nil}
use orbitnet.Base.Int.{sub_ℕ}
use orbitnet.Schema.{PropSchema}
use orbitnet.Schema.Layout.{Fills}
use orbitnet.Quant.Ss3.{Float}
use orbitnet.Quant.{wire_row_stride, encode_row}
use orbitnet.Quant.Rows.{length-encode_row}
use orbitnet.Wire.Bytes.{Bytes, got, pure, bytes, peek_bytes, le_bytes, varint_bytes, zigzag_code}
use orbitnet.Wire.Bytes.Laws.{
  Reads, after-Reads, Reads-uint, Reads-bytes, Reads-map, length-le_bytes,
}
use orbitnet.Wire.Bytes.Varint.{IsI64, Reads-varint, Reads-zigzag}
use orbitnet.Wire.Block.{
  InputBlockMeta, encode_rows, encode_input_block, newest_from, decode_input_block_meta,
  input_block_row, skip_input_block_body,
}
use orbitnet.Wire.Block.Receive.{remaining_then, held_then}

-- The metadata of a block of these rows.
abbrev pub input_meta : List PropSchema → ℕ → ℕ → List Bytes → InputBlockMeta
input_meta props slot newest_tick rows = record {
  slot = slot;
  newest_tick = newest_tick;
  count = min (length rows) 255;
  body_len = wire_row_stride props * min (length rows) 255;
}

-- Every row has the size of a row.
abbrev pub AreRows : ℕ → List Bytes → Type 0
AreRows size rows = All (λ (r : Bytes). length r ≡ size) rows

sub-IsI64 : (a b : ℕ) → a < 2 ^ 63 → b < 2 ^ 63 → IsI64 (sub_ℕ a b)
sub-IsI64 a b ha hb = ground arith

newest_from-sub :
    (frame_tick newest_tick : ℕ)
    → newest_tick < 2 ^ 63
    → newest_from frame_tick (sub_ℕ frame_tick newest_tick) ≡ newest_tick
newest_from-sub frame_tick newest_tick h = ground arith

module _ (f : Float) (props : List PropSchema) (size : ℕ) (fills : Fills 0 props size) where
  length-encode_rows :
      (n : ℕ) (rows : List Bytes)
      → AreRows size rows
      → length (encode_rows f props (take n rows)) ≡ wire_row_stride props * min (length rows) n
  unfolding encode_rows
  length-encode_rows zero rows h =
      let least : min (length rows) 0 ≡ 0 = omega arith in rw least (omega arith)
  length-encode_rows (suc n) [] h =
      let least : min 0 (suc n) ≡ 0 = omega arith in rw least (omega arith)
  length-encode_rows (suc n) (row ∷ rows) h =
      let one = length-encode_row f props size row fills h.0 in
      let rest = length-encode_rows n rows h.1 in
      let least : min (suc (length rows)) (suc n) ≡ suc (min (length rows) n) = omega arith in
      rw
        (
          length-append (encode_row f props row) (encode_rows f props (take n rows)),
          one,
          rest,
          least,
        )
        (omega arith)

  -- What stands at a row's place.
  encode_rows-row :
      (n index : ℕ) (rows : List Bytes) (rest : Bytes)
      → AreRows size rows
      → index < min (length rows) n
      → (after_row : Bytes) × (drop
            (wire_row_stride props * index)
            (encode_rows f props (take n rows) ++ rest)
          ≡ encode_row f props (get_or rows index []) ++ after_row)
  unfolding encode_rows
  encode_rows-row zero index rows rest h less = absurd (omega (arith, less))
  encode_rows-row (suc n) index [] rest h less = absurd (omega (arith, less))
  encode_rows-row (suc n) zero (row ∷ rows) rest h less =
      let none_yet : wire_row_stride props * 0 ≡ 0 = omega arith in
      let shape = append_assoc (encode_row f props row) (encode_rows f props (take n rows)) rest in
      (
        encode_rows f props (take n rows) ++ rest,
        ap (λ k. drop k ((encode_row f props row ++ encode_rows f props (take n rows)) ++ rest))
              none_yet
            ∙ shape,
      )
  encode_rows-row (suc n) (suc index) (row ∷ rows) rest h less =
      let s = wire_row_stride props in
      let enc = encode_row f props row in
      let one = length-encode_row f props size row fills h.0 in
      let further = encode_rows-row n index rows rest h.1 (omega (arith, less)) in
      let step : s * suc index ≡ s + s * index = omega arith in
      let shape = append_assoc enc (encode_rows f props (take n rows)) rest in
      (
        further.0,
        ap (λ k. drop k ((enc ++ encode_rows f props (take n rows)) ++ rest)) step
            ∙ ap (λ bs. drop (s + s * index) bs) shape
            ∙ sym (drop_add s (s * index) (enc ++ (encode_rows f props (take n rows) ++ rest)))
            ∙ ap (λ bs. drop (s * index) bs)
                (drop_append_at s enc (encode_rows f props (take n rows) ++ rest) (sym one))
            ∙ further.1,
      )

  -- The metadata, with the reader left at the rows, and the rows skipped.
  pub decode_input_block_meta-encode :
      (slot frame_tick newest_tick : ℕ) (rows : List Bytes) (rest : Bytes)
      → slot < 2 ^ 16
      → frame_tick < 2 ^ 63
      → newest_tick < 2 ^ 63
      → wire_row_stride props * min (length rows) 255 + 1 < 2 ^ 64
      → AreRows size rows
      → (decode_input_block_meta frame_tick
            (encode_input_block f props slot frame_tick newest_tick rows ++ rest)
          ≡ got
              (input_meta props slot newest_tick rows)
              (encode_rows f props (take 255 rows) ++ rest))
        × Reads
            (skip_input_block_body (input_meta props slot newest_tick rows))
            (encode_rows f props (take 255 rows))
            tt
  unfolding decode_input_block_meta encode_input_block skip_input_block_body pure
  decode_input_block_meta-encode slot frame_tick newest_tick rows rest hs hf hn hl h =
      let count = min (length rows) 255 in
      let packed = encode_rows f props (take 255 rows) in
      let sent = length-encode_rows 255 rows h in
      let delta = sub_ℕ frame_tick newest_tick in
      let len = wire_row_stride props * count + 1 in
      let body = le_bytes 1 count ++ (packed ++ rest) in
      let body_size = length-append (le_bytes 1 count) (packed ++ rest) in
      let packed_size = length-append packed rest in
      (
        ap (decode_input_block_meta frame_tick) (
              spread (le_bytes 2 slot) (varint_bytes (zigzag_code delta)) (varint_bytes len)
                (le_bytes 1 count) packed rest)
            ∙ after-Reads (Reads-uint 2 slot (omega (arith, hs))) _
                (varint_bytes (zigzag_code delta) ++ (varint_bytes len ++ body))
            ∙ after-Reads (Reads-zigzag delta (sub-IsI64 frame_tick newest_tick hf hn)) _
                (varint_bytes len ++ body)
            ∙ after-Reads (Reads-varint len hl) _ body
            ∙ remaining_then _ body
            ∙ held_then _ body len (length body)
                (omega (arith, body_size, packed_size, sent, length-le_bytes 1 count)) (omega arith)
            ∙ after-Reads (Reads-uint 1 count (omega arith)) _ (packed ++ rest)
            ∙ (λ i.
                got
                  (record {
                    slot = slot;
                    newest_tick = newest_from-sub frame_tick newest_tick hn i;
                    count = count;
                    body_len = one_less (wire_row_stride props * count) i;
                  })
                  (packed ++ rest)),
        Reads-map (bytes (wire_row_stride props * count)) (λ _. tt) packed packed
            (Reads-bytes (wire_row_stride props * count) packed sent),
      )
    where
      one_less : (n : ℕ) → n + 1 - 1 ≡ n
      one_less n = omega arith

      spread :
          (a b c d e rest : Bytes)
          → (a ++ (b ++ (c ++ (d ++ (e ++ []))))) ++ rest ≡ a ++ (b ++ (c ++ (d ++ (e ++ rest))))
      spread a b c d e rest = simp (append_assoc, append-nil)

  -- A row of the block, by its index.
  pub input_block_row-encode :
      (slot newest_tick index : ℕ) (rows : List Bytes) (rest : Bytes)
      → 0 < wire_row_stride props
      → AreRows size rows
      → input_block_row
          (encode_rows f props (take 255 rows) ++ rest)
          (input_meta props slot newest_tick rows)
          (wire_row_stride props)
          index
        ≡ (if ltb index (min (length rows) 255)
            then some (encode_row f props (get_or rows index []))
            else none)
  unfolding input_block_row peek_bytes
  input_block_row-encode slot newest_tick index rows rest hw h =
      elim (ltb_cases index (min (length rows) 255)) [
        | inl (less, is_less) ↦
            let s = wire_row_stride props in
            let count = min (length rows) 255 in
            let buf = encode_rows f props (take 255 rows) ++ rest in
            let found = encode_rows-row 255 index rows rest h less in
            let one =
              length-encode_row f props size (get_or rows index []) fills
                (row_size index rows h (omega (arith, less))) in
            let sized = length-append (encode_rows f props (take 255 rows)) rest in
            let sent = length-encode_rows 255 rows h in
            let reach : s * index + s ≤ s * count = grind (arith, less) in
            let some_width : (s == 0) ≡ false = ground (arith, hw) in
            let enough : ltb (length buf) (s * index + s) ≡ false =
              ground (arith, sized, sent, reach) in
            let fit = ==_self (s * count) in
            rw (some_width, is_less, fit, enough)
              (ap (λ bs. some (take s bs)) found.1
                ∙ ap some (
                    take_append_at s (encode_row f props (get_or rows index [])) found.0 (sym one)))
        | inr (more, not_less) ↦ rw not_less (none_there (wire_row_stride props == 0) _)
      ]
    where
      row_size :
          (index : ℕ) (rows : List Bytes)
          → AreRows size rows
          → index < length rows
          → length (get_or rows index []) ≡ size
      row_size index [] h less = absurd (omega (arith, less))
      row_size zero (row ∷ rows) h less = h.0
      row_size (suc index) (row ∷ rows) h less = row_size index rows h.1 (omega (arith, less))

      none_there : {A : Type 0} (b : Bool) (x : Option A) → (if b || true then none else x) ≡ none
      none_there true x = refl
      none_there false x = refl

  -- An input block reads back: the slot, the newest tick, how many rows there are and how many bytes
  -- they take, with the reader left at the rows. There an index below the count gives that row as it
  -- was packed and any other index gives none, and skipping the body leaves what follows the block. The
  -- ticks are below 2^63, the rows have the schema's size, which is not 0, and at most 255 are sent.
  pub input_block_lem :
      (slot frame_tick newest_tick index : ℕ) (rows : List Bytes) (rest : Bytes)
      → slot < 2 ^ 16
      → frame_tick < 2 ^ 63
      → newest_tick < 2 ^ 63
      → 0 < wire_row_stride props
      → wire_row_stride props * min (length rows) 255 + 1 < 2 ^ 64
      → AreRows size rows
      → (decode_input_block_meta frame_tick
            (encode_input_block f props slot frame_tick newest_tick rows ++ rest)
          ≡ got
              (input_meta props slot newest_tick rows)
              (encode_rows f props (take 255 rows) ++ rest))
        × (input_block_row
              (encode_rows f props (take 255 rows) ++ rest)
              (input_meta props slot newest_tick rows)
              (wire_row_stride props)
              index
            ≡ (if ltb index (min (length rows) 255)
                then some (encode_row f props (get_or rows index []))
                else none))
        × Reads
            (skip_input_block_body (input_meta props slot newest_tick rows))
            (encode_rows f props (take 255 rows))
            tt
  input_block_lem slot frame_tick newest_tick index rows rest hs hf hn hw hl h =
      let meta =
        decode_input_block_meta-encode slot frame_tick newest_tick rows rest hs hf hn hl h in
      (meta.0, input_block_row-encode slot newest_tick index rows rest hw h, meta.1)
