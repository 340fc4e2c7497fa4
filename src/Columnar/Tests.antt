-- ===== src/Columnar/Tests.antt =====
-- Runs of the rows.
use orbitnet.Base.{◌≡◌, refl, false, none, some, [], ◌∷◌}
use orbitnet.Columnar.{
  ColumnarHistory, new, has, is_stale, claimed, begin_row, write_row, row, probe_down,
  closest_at_or_before,
}

-- Three rows of two bytes, with the ticks 4 and 5 in them.
abbrev two_rows : ColumnarHistory
two_rows = (write_row (write_row (new 2 3) 4 (1 ∷ 2 ∷ [])).1 5 (3 ∷ 4 ∷ [])).1

rows_run :
    (row two_rows 4 ≡ some (1 ∷ 2 ∷ []))
    × (row two_rows 7 ≡ none)
    × ((write_row two_rows 2 (9 ∷ 9 ∷ [])).0 ≡ false)
    × (closest_at_or_before two_rows 7 ≡ some (5, 3 ∷ 4 ∷ []))
    × (closest_at_or_before two_rows 9 ≡ none)
unfolding new row has write_row begin_row claimed is_stale closest_at_or_before probe_down
rows_run = (refl, refl, refl, refl, refl)
