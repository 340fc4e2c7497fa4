-- ===== src/Wire/Manifest/Laws.antt =====
-- Manifests, their deltas and the interest frames read back.
use orbitnet.Base.{ℕ, ◌^◌, ◌<◌, ◌≡◌, List, [], ◌∷◌, arith, length, All}
use orbitnet.Base.Int.{ℤ, pos, negsuc, pos_part}
use orbitnet.Wire.Bytes.{Bytes, Reader, le_bytes, uint}
use orbitnet.Wire.Bytes.Laws.{Reads, ◌then⟨◌⟩◌, Reads-pure, Reads-uint, Reads-map}
use orbitnet.Wire.Bytes.Varint.{Reads-varint}
use orbitnet.Wire.Frame.{entity_manifest, entity_manifest_delta, interest_table}
use orbitnet.Wire.Join.Laws.{framed, Reads-framed}
use orbitnet.Wire.Manifest.{
  ManifestEntry, ManifestDelta, entry_bytes, owner_value, read_entry, each, times,
  write_manifest_entries, read_manifest_entries, slot_run, decode_slot_run, encode_manifest_full,
  decode_manifest_full, encode_manifest_delta, decode_manifest_delta, InterestDeltaSection,
  encode_interest_delta, decode_interest_delta, encode_interest_table, decode_interest_table,
}

-- The owner is no negative number: one is written as the 0 of an unowned body.
abbrev pub IsOwner : ℤ → Type 0
IsOwner (pos n) = n < 2 ^ 31
IsOwner (negsuc n) = ⊥

pub record FitsEntry (e : ManifestEntry) : Type 0 where
  pub slot : e.slot < 2 ^ 16
  pub id : e.id < 2 ^ 64
  pub state_hash : e.state_hash < 2 ^ 32
  pub input_hash : e.input_hash < 2 ^ 32
  pub owner : IsOwner e.owner
  pub seat : e.seat < 2 ^ 16

owner_value-pos_part : (z : ℤ) → IsOwner z → owner_value (pos_part z) ≡ z
unfolding owner_value
owner_value-pos_part (pos n) h = ground arith
owner_value-pos_part (negsuc n) h = absurd h

owner_small : (z : ℤ) → IsOwner z → pos_part z < 2 ^ 64
owner_small (pos n) h = omega arith
owner_small (negsuc n) h = absurd h

Reads-read_entry : (e : ManifestEntry) → FitsEntry e → Reads read_entry (entry_bytes e) e
unfolding read_entry entry_bytes
Reads-read_entry e fits =
    Reads-uint 2 e.slot fits.slot
    then⟨ _ ⟩ Reads-varint e.id fits.id
    then⟨ _ ⟩ Reads-uint 4 e.state_hash fits.state_hash
    then⟨ _ ⟩ Reads-uint 4 e.input_hash fits.input_hash
    then⟨ _ ⟩ Reads-varint (pos_part e.owner) (owner_small e.owner fits.owner)
    then⟨ _ ⟩ Reads-uint 2 e.seat fits.seat
    then⟨ _ ⟩ rw (owner_value-pos_part e.owner fits.owner) (Reads-pure e)

pub Reads-times {ℓ} :
    {A : Type ℓ} (m : Reader A) (put : A → Bytes) (P : A → Type 0) (xs : List A)
    → ((a : A) → P a → Reads m (put a) a)
    → All P xs
    → Reads (times (length xs) m) (each put xs) xs
unfolding times each
Reads-times m put P [] r h = Reads-pure []
Reads-times m put P (x ∷ xs) r h =
    r x h.0
    then⟨ _ ⟩
      Reads-map (times (length xs) m) (λ ys. x ∷ ys) (each put xs) xs (Reads-times m put P xs r h.1)

-- A run of u16 slots whose number fits a u64.
pub record FitsRun (slots : List ℕ) : Type 0 where
  pub count : length slots < 2 ^ 64
  pub slots_fit : All (λ s. s < 2 ^ 16) slots

pub Reads-decode_slot_run :
    (slots : List ℕ) → FitsRun slots → Reads decode_slot_run (slot_run slots) slots
unfolding decode_slot_run slot_run
Reads-decode_slot_run slots fits =
    Reads-varint (length slots) fits.count
    then⟨ _ ⟩
      Reads-times (uint 2) (le_bytes 2) (λ s. s < 2 ^ 16) slots (λ s h. Reads-uint 2 s h)
        fits.slots_fit

pub record FitsEntries (entries : List ManifestEntry) : Type 0 where
  pub count : length entries < 2 ^ 64
  pub entries_fit : All FitsEntry entries

Reads-read_manifest_entries :
    (entries : List ManifestEntry)
    → FitsEntries entries
    → Reads read_manifest_entries (write_manifest_entries entries) entries
unfolding read_manifest_entries write_manifest_entries
Reads-read_manifest_entries entries fits =
    Reads-varint (length entries) fits.count
    then⟨ _ ⟩ Reads-times read_entry entry_bytes FitsEntry entries Reads-read_entry fits.entries_fit

-- A whole manifest whose rows fit their widths, none with a negative owner, reads back: kind,
-- generation and rows.
pub Reads-decode_manifest_full :
    (generation : ℕ) (entries : List ManifestEntry)
    → generation < 2 ^ 64
    → FitsEntries entries
    → Reads
        (framed decode_manifest_full)
        (encode_manifest_full generation entries)
        (entity_manifest, (generation, entries))
unfolding decode_manifest_full encode_manifest_full
Reads-decode_manifest_full generation entries h fits =
    Reads-framed entity_manifest decode_manifest_full _ (generation, entries)
      (Reads-varint generation h
        then⟨ _ ⟩ Reads-read_manifest_entries entries fits
        then⟨ _ ⟩ Reads-pure (generation, entries))

pub record FitsDelta (d : ManifestDelta) : Type 0 where
  pub base_generation : d.base_generation < 2 ^ 64
  pub generation : d.generation < 2 ^ 64
  pub removed : FitsRun d.removed
  pub added : FitsEntries d.added

-- A manifest delta whose slots and rows fit their widths, none with a negative owner, reads back,
-- kind and payload.
pub Reads-decode_manifest_delta :
    (d : ManifestDelta)
    → FitsDelta d
    → Reads (framed decode_manifest_delta) (encode_manifest_delta d) (entity_manifest_delta, d)
unfolding decode_manifest_delta encode_manifest_delta
Reads-decode_manifest_delta d fits = Reads-framed entity_manifest_delta decode_manifest_delta _ d (
    Reads-varint d.base_generation fits.base_generation
    then⟨ _ ⟩ Reads-varint d.generation fits.generation
    then⟨ _ ⟩ Reads-decode_slot_run d.removed fits.removed
    then⟨ _ ⟩ Reads-read_manifest_entries d.added fits.added
    then⟨ _ ⟩ Reads-pure d)

-- For 64-bit generations and 16-bit slots, an interest delta reads back off the bytes behind a
-- frame's blocks, and an interest table off its own frame.
pub Reads-decode_interest :
    (s : InterestDeltaSection) (generation : ℕ) (slots : List ℕ)
    → s.generation < 2 ^ 64
    → FitsRun s.left
    → FitsRun s.entered
    → generation < 2 ^ 64
    → FitsRun slots
    → Reads decode_interest_delta (encode_interest_delta s) s
      × Reads
          (framed decode_interest_table)
          (encode_interest_table generation slots)
          (interest_table, (generation, slots))
unfolding decode_interest_delta encode_interest_delta decode_interest_table encode_interest_table
Reads-decode_interest s generation slots h1 h2 h3 h4 h5 = (
  Reads-varint s.generation h1
      then⟨ _ ⟩ Reads-decode_slot_run s.left h2
      then⟨ _ ⟩ Reads-decode_slot_run s.entered h3
      then⟨ _ ⟩ Reads-pure s,
  Reads-framed interest_table decode_interest_table _ (generation, slots)
      (Reads-varint generation h4
        then⟨ _ ⟩ Reads-decode_slot_run slots h5
        then⟨ _ ⟩ Reads-pure (generation, slots)),
)

-- The frames that carry tables read back, kind and payload, for rows and slots that fit their widths,
-- no row with a negative owner: a whole manifest, a manifest delta, an interest delta off the bytes
-- behind a frame's blocks, and an interest table.
pub Reads-table_frames :
    (generation : ℕ) (entries : List ManifestEntry) (d : ManifestDelta) (s : InterestDeltaSection)
    (slots : List ℕ)
    → generation < 2 ^ 64
    → FitsEntries entries
    → FitsDelta d
    → s.generation < 2 ^ 64
    → FitsRun s.left
    → FitsRun s.entered
    → FitsRun slots
    → Reads
        (framed decode_manifest_full)
        (encode_manifest_full generation entries)
        (entity_manifest, (generation, entries))
      × Reads (framed decode_manifest_delta) (encode_manifest_delta d) (entity_manifest_delta, d)
      × Reads decode_interest_delta (encode_interest_delta s) s
      × Reads
          (framed decode_interest_table)
          (encode_interest_table generation slots)
          (interest_table, (generation, slots))
Reads-table_frames generation entries d s slots hg he hd hs hl hn ht =
    let interest = Reads-decode_interest s generation slots hs hl hn hg ht in
    (
      Reads-decode_manifest_full generation entries hg he,
      Reads-decode_manifest_delta d hd,
      interest.0,
      interest.1,
    )
