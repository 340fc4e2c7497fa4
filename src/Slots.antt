-- ===== src/Slots.antt =====
-- native/crates/orbitnet-core/src/slots.rs: the dense wire names of entities. The server allocates
-- and releases, a client binds and unbinds.
pub mod Inverse
pub mod Valid
pub mod Outcome
pub mod Server
pub mod Release
pub mod Client
pub mod Unbind
pub mod Reconcile
pub mod Quarantine
mod Tests
use orbitnet.Base.{
  ℕ, ◌+◌, ◌-◌, ◌^◌, ◌≤◌, Bool, true, false, not, Option, none, some, List, [], ◌∷◌, ◌++◌, ltb, leb,
  ◌==◌, if◌then◌else◌, is_some, length, get_or, set, replicate,
}
use orbitnet.Base.OrdMap.{OrdMap, lookup, insert, remove, keys}

abbrev pub max_slots : ℕ
max_slots = 2 ^ 16

abbrev pub slot_quarantine_ticks : ℕ
slot_quarantine_ticks = 256

pub data SlotError : Type 0 where
  quarantined exhausted : SlotError

pub data SlotResult : Type 0 where
  ok : ℕ → SlotResult
  err : SlotError → SlotResult

-- `ids[slot]` is 0 where the slot is vacant; `free` holds freed slots with their ticks, oldest first.
pub record SlotTable : Type 0 where
  pub ids : List ℕ
  pub slots : OrdMap ℕ
  pub free : List (ℕ × ℕ)

unfoldable pub new : SlotTable
new = record { ids = []; slots = []; free = [] }

unfoldable pub len : SlotTable → ℕ
len t = length t.slots

unfoldable pub frontier : SlotTable → ℕ
frontier t = length t.ids

unfoldable pub clear : SlotTable → SlotTable
clear t = record { ids = []; slots = []; free = [] }

unfoldable pub slot_of : SlotTable → ℕ → Option ℕ
slot_of t id = lookup id t.slots

abbrev pub named : ℕ → Option ℕ
named id = if id == 0 then none else some id

unfoldable pub id_of : SlotTable → ℕ → Option ℕ
id_of t slot = named (get_or t.ids slot 0)

-- `ids.resize(slot + 1, 0)` where the vector is too short.
abbrev pub grown : List ℕ → ℕ → List ℕ
grown ids slot = ids ++ replicate (slot + 1 - length ids) 0

unfoldable pub bind_at : SlotTable → ℕ → ℕ → SlotTable
bind_at t slot id = record t {
  ids = set (grown t.ids slot) slot id;
  slots = insert id slot t.slots;
}

-- The last part of `alloc`: a new slot, or the reason why there is none.
unfoldable pub mint : SlotTable → ℕ → SlotResult × SlotTable
mint t id =
    if ltb (length t.ids) max_slots
    then (
      ok (length t.ids),
      record t { ids = t.ids ++ (id ∷ []); slots = insert id (length t.ids) t.slots },
    )
    else (err (elim t.free [ [] ↦ exhausted | _ ∷ _ ↦ quarantined ]), t)

-- The front of the free list, if its quarantine is over.
unfoldable pub reuse_or_mint : SlotTable → ℕ → ℕ → SlotResult × SlotTable
unfolding mint bind_at
reuse_or_mint t id tick = elim t.free [
  | [] ↦ mint t id
  | (slot, freed_tick) ∷ rest ↦
      if leb slot_quarantine_ticks (tick - freed_tick)
      then (ok slot, bind_at (record t { free = rest }) slot id)
      else mint t id
]

unfoldable pub alloc : SlotTable → ℕ → ℕ → SlotResult × SlotTable
unfolding reuse_or_mint
alloc t id tick =
    if id == 0
    then (err exhausted, t)
    else elim (lookup id t.slots) [ some slot ↦ (ok slot, t) | none ↦ reuse_or_mint t id tick ]

unfoldable pub release : SlotTable → ℕ → ℕ → Option ℕ × SlotTable
release t id tick = elim (lookup id t.slots) [
  | none ↦ (none, t)
  | some slot ↦ (
    some slot,
    record {
      ids = set t.ids slot 0;
      slots = remove id t.slots;
      free = t.free ++ ((slot, tick) ∷ []);
    },
  )
]

-- The two halves of `bind` that retire the old bindings of the slot and of the id.
unfoldable pub retire_id : SlotTable → Option ℕ → SlotTable
retire_id t none = t
retire_id t (some previous) = record t { slots = remove previous t.slots }

unfoldable pub retire_slot : SlotTable → Option ℕ → SlotTable
retire_slot t none = t
retire_slot t (some previous_slot) = record t { ids = set t.ids previous_slot 0 }

unfoldable pub bind : SlotTable → ℕ → ℕ → SlotTable
unfolding retire_id retire_slot bind_at id_of
bind t slot id =
    let t1 = retire_id t (id_of t slot) in
    let t2 = retire_slot t1 (lookup id t1.slots) in if id == 0 then t else bind_at t2 slot id

unfoldable pub unbind : SlotTable → ℕ → Option ℕ × SlotTable
unfolding id_of
unbind t slot = elim (id_of t slot) [
  | none ↦ (none, t)
  | some id ↦ (some id, record t { ids = set t.ids slot 0; slots = remove id t.slots })
]
