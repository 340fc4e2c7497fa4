-- ===== src/Columnar/Laws.antt =====
-- What a read of the rows answers after a write.
use orbitnet.Base.{
  ℕ, ◌+◌, ◌*◌, ◌<◌, ◌≡◌, sym, ◌∙◌, ap, max, min, u64_max, Option, none, some, length,
  length-replicate, arith,
}
use orbitnet.Base.Rows.{splice}
use orbitnet.Wire.Bytes.{Bytes}
use orbitnet.Columnar.{ColumnarHistory, new, capacity, slot, newest, claimed}

-- There is a slot, and the bytes are one row for each.
abbrev pub IsSized : ColumnarHistory → Type 0
IsSized h = (length h.rows ≡ h.row_size * capacity h) × (0 < capacity h)

pub new-IsSized : (row_size n : ℕ) → IsSized (new row_size n)
unfolding new
new-IsSized row_size n =
    let gap : Option ℕ = none in
    let size = length-replicate (max n 1) gap in
    (
      length-replicate (row_size * max n 1) 0 ∙ ap (λ k. row_size * k) (sym size),
      omega (arith, size),
    )

-- The history behind a write that is taken.
abbrev stored : ColumnarHistory → ℕ → Bytes → ColumnarHistory
stored h tick src = record (claimed h tick) {
  rows = splice (claimed h tick).rows (slot h tick * h.row_size) src;
  latest = some (newest h.latest tick);
}

-- Less than a span behind the newest tick, where there is one, the sum held at `u64::MAX`.
abbrev pub IsRecent : Option ℕ → ℕ → ℕ → Type 0
IsRecent none span tick = Unit {0}
IsRecent (some latest) span tick = latest < min (tick + span) u64_max

-- The newest tick after one more.
abbrev pub IsNewest : Option ℕ → ℕ → Option ℕ → Type 0
IsNewest none tick after = after ≡ some tick
IsNewest (some latest) tick after = after ≡ some (max latest tick)
