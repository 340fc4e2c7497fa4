-- ===== src/Wire/Manifest/Diff.antt =====
-- `diff_manifest` and `apply_manifest_delta` of codec.rs: the delta between two tables, and the table
-- that a delta leads to. Tables are keyed by slot.
use orbitnet.Base.{
  ℕ, Bool, false, Option, none, some, List, [], ◌∷◌, leb, ◌==◌, ◌&&◌, if◌then◌else◌,
}
use orbitnet.Base.Int.{pos_part, neg_part}
use orbitnet.Base.OrdMap.{OrdMap, lookup, insert, remove, keys}
use orbitnet.Wire.Manifest.{ManifestEntry, ManifestDelta}

-- The derived equality of rows.
abbrev pub eqb_entry : ManifestEntry → ManifestEntry → Bool
eqb_entry a b =
    a.slot == b.slot
    && (a.id == b.id
        && (a.state_hash == b.state_hash
            && (a.input_hash == b.input_hash
                && (pos_part a.owner == pos_part b.owner
                    && (neg_part a.owner == neg_part b.owner && a.seat == b.seat)))))

-- Collecting rows into a map, and inserting them one by one.
unfoldable pub insert_all : List ManifestEntry → OrdMap ManifestEntry → OrdMap ManifestEntry
insert_all [] table = table
insert_all (e ∷ es) table = insert_all es (insert e.slot e table)

unfoldable pub table_of : List ManifestEntry → OrdMap ManifestEntry
unfolding insert_all
table_of rows = insert_all rows []

unfoldable pub remove_all : List ℕ → OrdMap ManifestEntry → OrdMap ManifestEntry
remove_all [] table = table
remove_all (slot ∷ slots) table = remove_all slots (remove slot table)

-- `into_values`.
unfoldable pub values : OrdMap ManifestEntry → List ManifestEntry
values [] = []
values ((slot, e) ∷ table) = e ∷ values table

abbrev pub is_held : ManifestEntry → Option ManifestEntry → Bool
is_held e none = false
is_held e (some held) = eqb_entry held e

-- The loop of `diff_manifest`: the rows that are left of `before`, and the rows that were added.
unfoldable pub diff_rows :
    OrdMap ManifestEntry → List ManifestEntry → OrdMap ManifestEntry × List ManifestEntry
diff_rows before [] = (before, [])
diff_rows before (e ∷ es) =
    let (rest, added) = diff_rows (remove e.slot before) es in
    (rest, if is_held e (lookup e.slot before) then added else e ∷ added)

-- `sort_unstable_by_key`.
unfoldable pub insert_by_slot : ManifestEntry → List ManifestEntry → List ManifestEntry
insert_by_slot e [] = e ∷ []
insert_by_slot e (x ∷ xs) =
    let later = insert_by_slot e xs in if leb e.slot x.slot then e ∷ x ∷ xs else x ∷ later

unfoldable pub sort_by_slot : List ManifestEntry → List ManifestEntry
unfolding insert_by_slot
sort_by_slot [] = []
sort_by_slot (x ∷ xs) = insert_by_slot x (sort_by_slot xs)

unfoldable pub diff_manifest : List ManifestEntry → List ManifestEntry → List ℕ × List ManifestEntry
unfolding table_of diff_rows sort_by_slot
diff_manifest previous current =
    let (rest, added) = diff_rows (table_of previous) current in (keys rest, sort_by_slot added)

unfoldable pub apply_manifest_delta : List ManifestEntry → ManifestDelta → List ManifestEntry
unfolding table_of insert_all remove_all values
apply_manifest_delta rows d = values (insert_all d.added (remove_all d.removed (table_of rows)))
