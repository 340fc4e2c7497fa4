-- ===== src/History/Window.antt =====
-- `ResimRange` and `DirtyWindow` of history.rs: the earliest tick that one body is replayed from.
use orbitnet.Base.{
  ◌⊎◌, ℕ, ◌+◌, ◌-◌, ◌≤◌, ◌<◌, max, min, ◌≡◌, Bool, Option, none, some, leb, ◌==◌, if◌then◌else◌,
  is_some, arith,
}

-- `from` inclusive, `to` exclusive.
pub record ResimRange : Type 0 where
  pub from : ℕ
  pub to : ℕ

unfoldable pub range_len : ResimRange → ℕ
range_len r = r.to - r.from

unfoldable pub range_is_empty : ResimRange → Bool
unfolding range_len
range_is_empty r = range_len r == 0

pub record DirtyWindow : Type 0 where
  pub earliest : Option ℕ

unfoldable pub clean : DirtyWindow
clean = record { earliest = none }

abbrev pub earlier : Option ℕ → ℕ → ℕ
earlier (some current) tick = min current tick
earlier none tick = tick

unfoldable pub mark : DirtyWindow → ℕ → DirtyWindow
mark w tick = record { earliest = some (earlier w.earliest tick) }

unfoldable pub is_dirty : DirtyWindow → Bool
is_dirty w = is_some w.earliest

-- The range from `earliest`, floored at the history limit, if any of it is in the past.
unfoldable pub clamped_range : ℕ → ℕ → ℕ → Option ResimRange
clamped_range earliest current limit =
    let from = max earliest (current - limit) in
    if leb current from then none else some (record { from = from; to = current })

-- `take` empties the window whatever it answers.
unfoldable pub take_window : DirtyWindow → ℕ → ℕ → Option ResimRange × DirtyWindow
unfolding clamped_range clean
take_window w current limit = elim w.earliest [
  | none ↦ (none, clean)
  | some earliest ↦ (clamped_range earliest current limit, clean)
]

-- A range runs up to the present, is not empty, starts no earlier than the history reaches back,
-- and covers every tick from the earliest mark on that is still held.
pub clamped_range_lem :
    (earliest current limit : ℕ) (r : ResimRange)
    → clamped_range earliest current limit ≡ some r
    → (r.to ≡ current)
      × (r.from < r.to)
      × (current ≤ r.from + limit)
      × (earliest ≤ r.from)
      × (range_len r ≤ limit)
unfolding clamped_range range_len
clamped_range_lem earliest current limit r e = ground arith

-- No range only if nothing that is still held needs a replay.
pub clamped_range-none :
    (earliest current limit : ℕ)
    → clamped_range earliest current limit ≡ none
    → (current ≤ earliest) ⊎ (limit ≡ 0) ⊎ (current ≡ 0)
unfolding clamped_range
clamped_range-none earliest current limit e = ground arith

pub clamped_range_length :
    (earliest current limit : ℕ) (r : ResimRange)
    → clamped_range earliest current limit ≡ some r
    → r.to - r.from ≡ current - max earliest (current - limit)
unfolding clamped_range
clamped_range_length earliest current limit r e = ground arith
