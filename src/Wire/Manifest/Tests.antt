-- ===== src/Wire/Manifest/Tests.antt =====
-- Manifests at concrete inputs.
use orbitnet.Base.{ℕ, ◌^◌, ◌<◌, ◌≡◌, refl, [], ◌∷◌, arith, true, false}
use orbitnet.Base.Int.{pos}
use orbitnet.Base.OrdMap.{lookup, insert, remove}
use orbitnet.Wire.Bytes.Laws.{Reads}
use orbitnet.Wire.Frame.{entity_manifest, entity_manifest_delta, interest_table}
use orbitnet.Wire.Join.Laws.{framed}
use orbitnet.Wire.Manifest.{
  ManifestEntry, ManifestDelta, delta_applies_to, encode_manifest_full, decode_manifest_full,
  encode_manifest_delta, decode_manifest_delta, InterestDeltaSection, section_applies_to,
  encode_interest_delta, decode_interest_delta, encode_interest_table, decode_interest_table,
}
use orbitnet.Wire.Manifest.Laws.{Reads-table_frames, FitsEntry, FitsEntries, FitsRun}
use orbitnet.Wire.Manifest.Diff.{
  diff_manifest, apply_manifest_delta, values, table_of, insert_all, diff_rows, sort_by_slot,
  insert_by_slot,
}
use orbitnet.Wire.Manifest.Algebra.{find}
use orbitnet.Wire.Manifest.Patch.{apply_manifest_delta-diff_manifest}

abbrev row : ℕ → ℕ → ManifestEntry
row slot id = record {
  slot = slot;
  id = id;
  state_hash = 4;
  input_hash = 5;
  owner = pos 1;
  seat = 0;
}

fits_row : (slot id : ℕ) → slot < 2 ^ 16 → id < 2 ^ 64 → FitsEntry (row slot id)
fits_row slot id h k = record {
  slot = h;
  id = k;
  state_hash = omega arith;
  input_hash = omega arith;
  owner = omega arith;
  seat = omega arith;
}

two_rows-Fits : FitsEntries (row 3 900 ∷ row 1 2 ∷ [])
two_rows-Fits = record {
  count = omega arith;
  entries_fit =
      (fits_row 3 900 (omega arith) (omega arith), (fits_row 1 2 (omega arith) (omega arith), tt));
}

two_slots-Fits : FitsRun (300 ∷ 7 ∷ [])
two_slots-Fits = record { count = omega arith; slots_fit = (omega arith, (omega arith, tt)) }

abbrev change : ManifestDelta
change = record {
  base_generation = 11;
  generation = 13;
  removed = 300 ∷ 7 ∷ [];
  added = row 3 900 ∷ row 1 2 ∷ [];
}

abbrev section : InterestDeltaSection
section = record { generation = 4; left = 300 ∷ 7 ∷ []; entered = 300 ∷ 7 ∷ [] }

gates : (delta_applies_to change 11 ≡ true) × (section_applies_to section 5 ≡ false)
unfolding delta_applies_to section_applies_to
gates = (refl, refl)

-- Slot 1 is reissued, slot 2 goes and slot 9 comes.
diff_runs :
    diff_manifest (row 1 10 ∷ row 2 20 ∷ row 4 40 ∷ []) (row 9 90 ∷ row 4 40 ∷ row 1 11 ∷ [])
    ≡ (2 ∷ [], row 1 11 ∷ row 9 90 ∷ [])
unfolding diff_manifest lookup insert remove insert_all diff_rows sort_by_slot insert_by_slot
    table_of
diff_runs = refl

apply_manifest_delta-diff_manifest_example :
    apply_manifest_delta (row 1 10 ∷ row 2 20 ∷ []) (record {
      base_generation = 3;
      generation = 4;
      removed = (diff_manifest (row 1 10 ∷ row 2 20 ∷ []) (row 9 90 ∷ row 1 11 ∷ [])).0;
      added = (diff_manifest (row 1 10 ∷ row 2 20 ∷ []) (row 9 90 ∷ row 1 11 ∷ [])).1;
    })
    ≡ values (table_of (row 9 90 ∷ row 1 11 ∷ []))
apply_manifest_delta-diff_manifest_example =
    apply_manifest_delta-diff_manifest (row 1 10 ∷ row 2 20 ∷ []) (row 9 90 ∷ row 1 11 ∷ []) 3 4
      (unfold find in (refl, (refl, tt)))

Reads-table_frames_example :
    Reads
      (framed decode_manifest_full)
      (encode_manifest_full 12 (row 3 900 ∷ row 1 2 ∷ []))
      (entity_manifest, (12, row 3 900 ∷ row 1 2 ∷ []))
    × Reads
        (framed decode_manifest_delta)
        (encode_manifest_delta change)
        (entity_manifest_delta, change)
    × Reads decode_interest_delta (encode_interest_delta section) section
    × Reads
        (framed decode_interest_table)
        (encode_interest_table 12 (300 ∷ 7 ∷ []))
        (interest_table, (12, 300 ∷ 7 ∷ []))
Reads-table_frames_example =
    Reads-table_frames 12 (row 3 900 ∷ row 1 2 ∷ []) change section (300 ∷ 7 ∷ []) (omega arith)
      two_rows-Fits
      (record {
        base_generation = omega arith;
        generation = omega arith;
        removed = two_slots-Fits;
        added = two_rows-Fits;
      })
      (omega arith) two_slots-Fits two_slots-Fits two_slots-Fits
