-- ===== src/Wire/Manifest.antt =====
-- The entity manifest of codec.rs: whole tables, deltas between them, and the runs of slots that the
-- interest frames share.
pub mod Laws
pub mod Size
pub mod Diff
pub mod Algebra
pub mod Patch
pub mod Tests
use orbitnet.Base.{
  ℕ, zero, suc, ◌+◌, ◌^◌, Bool, true, false, Option, none, some, List, [], ◌∷◌, ◌++◌, ltb, leb,
  ◌==◌, ◌&&◌, if◌then◌else◌, length,
}
use orbitnet.Base.Int.{ℤ, pos, pos_part, neg_part}
use orbitnet.Base.OrdMap.{OrdMap, lookup, insert, remove, keys}
use orbitnet.Wire.Bytes.{Bytes, written, Reader, ◌>>=◌, pure, le_bytes, uint, varint_bytes, varint}
use orbitnet.Wire.Frame.{tag, entity_manifest, entity_manifest_delta, interest_table}

pub record ManifestEntry : Type 0 where
  pub slot : ℕ
  pub id : ℕ
  pub state_hash : ℕ
  pub input_hash : ℕ
  pub owner : ℤ
  pub seat : ℕ

pub record ManifestDelta : Type 0 where
  pub base_generation : ℕ
  pub generation : ℕ
  pub removed : List ℕ
  pub added : List ManifestEntry

unfoldable pub delta_applies_to : ManifestDelta → ℕ → Bool
delta_applies_to d generation = d.base_generation == generation

-- `owner.max(0) as u64`.
unfoldable pub entry_bytes : ManifestEntry → Bytes
entry_bytes e = written (
    le_bytes 2 e.slot
    ∷ varint_bytes e.id
    ∷ le_bytes 4 e.state_hash
    ∷ le_bytes 4 e.input_hash
    ∷ varint_bytes (pos_part e.owner)
    ∷ le_bytes 2 e.seat
    ∷ [])

-- `i32::try_from(…).unwrap_or(0)`.
unfoldable pub owner_value : ℕ → ℤ
owner_value v = if ltb v (2 ^ 31) then pos v else pos 0

unfoldable pub read_entry : Reader ManifestEntry
read_entry = do
  slot ← uint 2
  id ← varint
  state_hash ← uint 4
  input_hash ← uint 4
  owner ← varint
  seat ← uint 2
  pure (record {
    slot = slot;
    id = id;
    state_hash = state_hash;
    input_hash = input_hash;
    owner = owner_value owner;
    seat = seat;
  })

-- A loop that writes, and one that reads `n` times.
unfoldable pub each {ℓ} : {A : Type ℓ} → (A → Bytes) → List A → Bytes
each put [] = []
each put (x ∷ xs) = put x ++ each put xs

unfoldable pub times {ℓ} : {A : Type ℓ} → ℕ → Reader A → Reader (List A)
times zero m = pure []
times (suc n) m = m >>= λ x. times n m >>= λ xs. pure (x ∷ xs)

unfoldable pub write_manifest_entries : List ManifestEntry → Bytes
write_manifest_entries entries = varint_bytes (length entries) ++ each entry_bytes entries

unfoldable pub read_manifest_entries : Reader (List ManifestEntry)
read_manifest_entries = varint >>= λ count. times count read_entry

unfoldable pub slot_run : List ℕ → Bytes
slot_run slots = varint_bytes (length slots) ++ each (le_bytes 2) slots

unfoldable pub decode_slot_run : Reader (List ℕ)
decode_slot_run = varint >>= λ count. times count (uint 2)

unfoldable pub encode_manifest_full : ℕ → List ManifestEntry → Bytes
encode_manifest_full generation entries = written (
    le_bytes 1 (tag entity_manifest)
    ∷ varint_bytes generation
    ∷ write_manifest_entries entries
    ∷ [])

unfoldable pub decode_manifest_full : Reader (ℕ × List ManifestEntry)
decode_manifest_full = do
  generation ← varint
  entries ← read_manifest_entries
  pure (generation, entries)

unfoldable pub encode_manifest_delta : ManifestDelta → Bytes
encode_manifest_delta d = written (
    le_bytes 1 (tag entity_manifest_delta)
    ∷ varint_bytes d.base_generation
    ∷ varint_bytes d.generation
    ∷ slot_run d.removed
    ∷ write_manifest_entries d.added
    ∷ [])

unfoldable pub decode_manifest_delta : Reader ManifestDelta
decode_manifest_delta = do
  base_generation ← varint
  generation ← varint
  removed ← decode_slot_run
  added ← read_manifest_entries
  pure (record {
    base_generation = base_generation;
    generation = generation;
    removed = removed;
    added = added;
  })

-- What entered and what left one peer's interest set.
pub record InterestDeltaSection : Type 0 where
  pub generation : ℕ
  pub left : List ℕ
  pub entered : List ℕ

unfoldable pub section_applies_to : InterestDeltaSection → ℕ → Bool
section_applies_to s generation = s.generation == generation

unfoldable pub encode_interest_delta : InterestDeltaSection → Bytes
encode_interest_delta s =
    written (varint_bytes s.generation ∷ slot_run s.left ∷ slot_run s.entered ∷ [])

unfoldable pub decode_interest_delta : Reader InterestDeltaSection
decode_interest_delta = do
  generation ← varint
  left ← decode_slot_run
  entered ← decode_slot_run
  pure (record { generation = generation; left = left; entered = entered })

unfoldable pub encode_interest_table : ℕ → List ℕ → Bytes
encode_interest_table generation slots =
    written (le_bytes 1 (tag interest_table) ∷ varint_bytes generation ∷ slot_run slots ∷ [])

unfoldable pub decode_interest_table : Reader (ℕ × List ℕ)
decode_interest_table = do generation ← varint; slots ← decode_slot_run; pure (generation, slots)
