-- ===== src/Columnar.antt =====
-- native/crates/orbitnet-core/src/columnar.rs: rows of one stride, addressed by tick modulo the
-- capacity, and the masks between two rows.
pub mod Laws
pub mod Closest
mod Tests
use orbitnet.Base.{
  ℕ, zero, suc, ◌+◌, ◌-◌, ◌*◌, ◌%◌, max, Bool, true, false, not, ◌||◌, Option, none, some, List, [],
  ◌∷◌, ◌++◌, map, ltb, leb, ◌==◌, if◌then◌else◌, length, take, drop, get_or, set, replicate,
  saturating_add,
}
use orbitnet.Base.Rows.{eqb_bytes, slice, splice}
use orbitnet.Wire.Bytes.{Bytes}
use orbitnet.Schema.{PropSchema, stride}

pub record ColumnarHistory : Type 0 where
  pub row_size : ℕ
  pub rows : Bytes
  pub ticks : List (Option ℕ)
  pub latest : Option ℕ

unfoldable pub new : ℕ → ℕ → ColumnarHistory
new row_size n = record {
  row_size = row_size;
  rows = replicate (row_size * max n 1) 0;
  ticks = replicate (max n 1) none;
  latest = none;
}

abbrev pub capacity : ColumnarHistory → ℕ
capacity h = length h.ticks

abbrev pub slot : ColumnarHistory → ℕ → ℕ
slot h tick = tick % capacity h

abbrev pub is_tick : Option ℕ → ℕ → Bool
is_tick none tick = false
is_tick (some stored) tick = stored == tick

unfoldable pub has : ColumnarHistory → ℕ → Bool
has h tick = is_tick (get_or h.ticks (slot h tick) none) tick

abbrev pub stale_after : Option ℕ → ℕ → ℕ → Bool
stale_after none span tick = false
stale_after (some latest) span tick = leb (saturating_add tick span) latest

unfoldable pub is_stale : ColumnarHistory → ℕ → Bool
is_stale h tick = stale_after h.latest (capacity h) tick

abbrev pub newest : Option ℕ → ℕ → ℕ
newest none tick = tick
newest (some latest) tick = max latest tick

-- The zeroing of a row that another tick leaves.
unfoldable pub claimed : ColumnarHistory → ℕ → ColumnarHistory
unfolding has
claimed h tick = if has h tick then h else record h {
  rows = splice h.rows (slot h tick * h.row_size) (replicate h.row_size 0);
  ticks = set h.ticks (slot h tick) (some tick);
}

-- `begin_row`: whether a row is handed out, and the history after it. The row is the one of `tick`.
unfoldable pub begin_row : ColumnarHistory → ℕ → Bool × ColumnarHistory
unfolding is_stale claimed
begin_row h tick =
    if is_stale h tick
    then (false, h)
    else (true, record (claimed h tick) { latest = some (newest h.latest tick) })

unfoldable pub write_row : ColumnarHistory → ℕ → Bytes → Bool × ColumnarHistory
unfolding begin_row
write_row h tick src =
    let b = begin_row h tick in
    if not (length src == h.row_size)
    then (false, h)
    else if b.0
    then (true, record b.1 { rows = splice b.1.rows (slot h tick * h.row_size) src })
    else (false, b.1)

unfoldable pub row : ColumnarHistory → ℕ → Option Bytes
unfolding has
row h tick = if has h tick then some (slice h.rows (slot h tick * h.row_size) h.row_size) else none

-- The loop of `closest_at_or_before`: `n` is `probe - floor`.
unfoldable pub probe_down : ColumnarHistory → ℕ → ℕ → Option (ℕ × Bytes)
unfolding row
probe_down h zero probe = elim (row h probe) [ some r ↦ some (probe, r) | none ↦ none ]
probe_down h (suc n) probe =
    let below = probe_down h n (probe - 1) in
    elim (row h probe) [ some r ↦ some (probe, r) | none ↦ below ]

unfoldable pub closest_at_or_before : ColumnarHistory → ℕ → Option (ℕ × Bytes)
unfolding probe_down
closest_at_or_before h tick =
    let floor = tick - (capacity h - 1) in probe_down h (tick - floor) tick

unfoldable pub clear : ColumnarHistory → ColumnarHistory
clear h = record h { rows = map (λ _. 0) h.rows; ticks = map (λ _. none) h.ticks; latest = none }

-- The mask of the properties in which two rows differ.
unfoldable pub changed_mask : List PropSchema → Bytes → Bytes → List Bool
changed_mask [] a b = []
changed_mask (p ∷ ps) a b =
    let end = p.offset + stride p.kind in
    let rest = changed_mask ps a b in
    if ltb (length a) end || ltb (length b) end
    then true ∷ rest
    else not (eqb_bytes (slice a p.offset (stride p.kind)) (slice b p.offset (stride p.kind)))
      ∷ rest

unfoldable pub masked_size : List PropSchema → List Bool → ℕ
masked_size [] mask = 0
masked_size (p ∷ ps) [] = 0
masked_size (p ∷ ps) (true ∷ ms) = stride p.kind + masked_size ps ms
masked_size (p ∷ ps) (false ∷ ms) = masked_size ps ms

unfoldable pub write_masked : List PropSchema → List Bool → Bytes → Bytes
write_masked [] mask r = []
write_masked (p ∷ ps) [] r = []
write_masked (p ∷ ps) (true ∷ ms) r = slice r p.offset (stride p.kind) ++ write_masked ps ms r
write_masked (p ∷ ps) (false ∷ ms) r = write_masked ps ms r

-- `apply_masked` from a cursor: the bytes consumed, and the row after it.
unfoldable pub apply_from : List PropSchema → List Bool → ℕ → Bytes → Bytes → Option ℕ × Bytes
apply_from [] mask cursor payload r = (some cursor, r)
apply_from (p ∷ ps) [] cursor payload r = (some cursor, r)
apply_from (p ∷ ps) (false ∷ ms) cursor payload r = apply_from ps ms cursor payload r
apply_from (p ∷ ps) (true ∷ ms) cursor payload r =
    let width = stride p.kind in
    let rest =
      apply_from ps ms (cursor + width) payload (splice r p.offset (slice payload cursor width)) in
    if ltb (length payload) (cursor + width) || ltb (length r) (p.offset + width)
    then (none, r)
    else rest

unfoldable pub apply_masked : List PropSchema → List Bool → Bytes → Bytes → Option ℕ × Bytes
unfolding apply_from
apply_masked props mask payload r = apply_from props mask 0 payload r
