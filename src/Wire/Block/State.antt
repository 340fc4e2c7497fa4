-- ===== src/Wire/Block/State.antt =====
-- A state block reads back: its metadata, and the row that it carries.
use orbitnet.Base.{ℕ, ◌≡◌, Option, none, some, List, length}
use orbitnet.Wire.Bytes.{Bytes}

-- The row that the block refers to is held, with the size of a row.
abbrev pub IsHeld : ℕ → Option (ℕ × Bytes) → (ℕ → Option Bytes) → Type 0
IsHeld size none held = Unit
IsHeld size (some (tick, base)) held = (held tick ≡ some base) × (length base ≡ size)
